-- ===== src/Tests/Urls.antt =====
-- URLs as pkg/server/config reads them and pkg/urlutil copies them.
use proxyreverse.Prelude.{ℕ, ◌≡◌, refl, Option, none, some, [], ◌∷◌, Text, codes, ok, err, text_eq}
use proxyreverse.Config.Urls.{
  proxy_unmarshal_text, proxy_marshal_text, new_url, url_unmarshal_text, url_marshal_text, UrlHeap,
  clone_user, clone_url,
}
use proxyreverse.Config.Urls.Clones.{IsClone, clone_url_apart}

read_tests :
    (proxy_unmarshal_text {Url = Text} (λ t. none) (codes "old") (codes "direct") ≡ codes "direct")
    × (proxy_unmarshal_text {Url = Text} (λ t. none) (codes "old") (codes "::") ≡ codes "old")
    × (proxy_marshal_text (codes "direct") ≡ codes "direct")
    × (new_url {Url = Text} {Failure = ℕ} (λ t. err 1) (λ u. u) (codes "::") ≡ (none, some 1))
    × (url_marshal_text {Url = Text} {Failure = ℕ} (λ t. ok t) (λ u. u) none ≡ [])
unfolding proxy_unmarshal_text proxy_marshal_text new_url url_unmarshal_text url_marshal_text
    text_eq
read_tests = (refl, refl, refl, refl, refl)

-- One URL with a user info.
abbrev heap : UrlHeap Text Text
heap = record { urls = (codes "host", some 0) ∷ []; users = codes "user" ∷ [] }

clone_tests : clone_url (some 0) heap ≡ (
  some 1,
  record {
    urls = (codes "host", some 0) ∷ (codes "host", some 1) ∷ [];
    users = codes "user" ∷ codes "user" ∷ [];
  },
)
unfolding clone_url clone_user
clone_tests = refl

clone_url_apart_example :
    (v : ℕ) × (user' : Option ℕ) × (heap' : UrlHeap Text Text) × (clone_url (some 0) heap
      ≡ (some v, heap'))
    × IsClone heap heap' 0 v (codes "host") (some 0) user'
clone_url_apart_example =
    clone_url_apart heap 0 (codes "host") (some 0) refl (λ i e. (codes "user", refl))
