-- ===== src/Config/Urls.antt =====
-- `ProxyURL` of pkg/server/config/proxy_models.go, `URL` of pkg/server/config/models.go and
-- `CloneURL` of pkg/urlutil/urlutil.go. A parsed URL is what `url.Parse` gives.
pub mod Clones
use proxyreverse.Prelude.{
  ℕ, Option, none, some, List, [], ◌∷◌, ◌++◌, Text, text_eq, if◌then◌else◌, Result, ok, err, length,
  get_elem?,
}
use proxyreverse.Config.Models.{proxy_direct, proxy_environment}

-- `ProxyURL.UnmarshalText`, on the receiver, which it gives back: it has no error.
module _ {Url : Type 0} (parse_url : Text → Option Url) where
  unfoldable pub proxy_unmarshal_text : Text → Text → Text
  proxy_unmarshal_text p text =
      let special =
        if text_eq text proxy_direct
        then text
        else if text_eq text proxy_environment
        then text
        else p in
      elim (parse_url text) [ some url ↦ text | none ↦ special ]

-- `ProxyURL.MarshalText`
unfoldable pub proxy_marshal_text : Text → Text
proxy_marshal_text p = p

-- `URL`, a nil pointer or a parsed URL.
module _ {Url Failure : Type 0} (parse : Text → Result Failure Url) (print : Url → Text) where
  unfoldable pub url_unmarshal_text : Option Url → Text → Option Url × Option Failure
  url_unmarshal_text u text = elim (parse text) [ ok url ↦ (some url, none) | err e ↦ (u, some e) ]

  unfoldable pub new_url : Text → Option Url × Option Failure
  unfolding url_unmarshal_text
  new_url text = url_unmarshal_text none text

  -- `MarshalText` and `MarshalYAML`
  unfoldable pub url_marshal_text : Option Url → Text
  url_marshal_text none = []
  url_marshal_text (some u) = print u

-- The memory behind `*url.URL`: the URLs and the user infos, by their addresses.
pub record UrlHeap (Rest Userinfo : Type 0) : Type 0 where
  pub urls : List (Rest × Option ℕ)
  pub users : List Userinfo

-- A new user info with the content of the old one, and its address.
unfoldable pub clone_user :
    {Userinfo : Type 0} → Option Userinfo → List Userinfo → Option ℕ × List Userinfo
clone_user none users = (none, users)
clone_user (some info) users = (some (length users), users ++ (info ∷ []))

module _ {Rest Userinfo : Type 0} where
  -- The pointer's target; a nil pointer has none.
  abbrev pub user_at : UrlHeap Rest Userinfo → Option ℕ → Option Userinfo
  user_at heap none = none
  user_at heap (some i) = get_elem? heap.users i

  -- `CloneURL` of a pointer that is nil or stands for a URL of the heap.
  unfoldable pub clone_url : Option ℕ → UrlHeap Rest Userinfo → Option ℕ × UrlHeap Rest Userinfo
  unfolding clone_user
  clone_url none heap = (none, heap)
  clone_url (some u) heap = elim (get_elem? heap.urls u) [
    | none ↦ (none, heap)
    | some (rest, user) ↦
        let (user', users) = clone_user (user_at heap user) heap.users in
        (
          some (length heap.urls),
          record { urls = heap.urls ++ ((rest, user') ∷ []); users = users },
        )
  ]
