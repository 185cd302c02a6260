-- ===== src/Config/Urls/Clones.antt =====
-- What `CloneURL` of pkg/urlutil/urlutil.go shares with its argument: nothing.
use proxyreverse.Prelude.{
  ℕ, ◌≡◌, refl, sym, ◌∙◌, Option, none, some, List, [], ◌∷◌, ◌++◌, arith, length, get_elem?,
  get_elem?-append,
}
use proxyreverse.Config.Urls.{UrlHeap, user_at, clone_user, clone_url}

get_elem?-last {ℓ} :
    {A : Type ℓ} (xs : List A) (v : A) → get_elem? (xs ++ (v ∷ [])) (length xs) ≡ some v
get_elem?-last [] v = refl
get_elem?-last (x ∷ xs) v = get_elem?-last xs v

get_elem?-length {ℓ} : {A : Type ℓ} (xs : List A) → get_elem? xs (length xs) ≡ none
get_elem?-length [] = refl
get_elem?-length (x ∷ xs) = get_elem?-length xs

-- A URL at an address and its copy at another, in the memory before and after. The copy has a new
-- address and the fields of the URL, and its user info has the content of the URL's; the URL and its
-- user info are as before, and the copy's user info, if any, has a new address too.
pub record IsClone {Rest Userinfo : Type 0} (heap heap' : UrlHeap Rest Userinfo) (u v : ℕ)
    (rest : Rest) (user user' : Option ℕ) : Type 0 where
  pub fresh : get_elem? heap.urls v ≡ none
  pub copied : get_elem? heap'.urls v ≡ some (rest, user')
  pub info : user_at heap' user' ≡ user_at heap user
  pub kept : get_elem? heap'.urls u ≡ some (rest, user)
  pub user_kept : user_at heap' user ≡ user_at heap user
  pub user_fresh : user_at heap user' ≡ none

module _ {Rest Userinfo : Type 0} (heap : UrlHeap Rest Userinfo) (u : ℕ) (rest : Rest) where
  -- The copy of a URL whose pointer to a user info is nil or valid shares nothing with it, has the
  -- same content, and leaves the URL as it was.
  pub clone_url_apart :
      (user : Option ℕ)
      → get_elem? heap.urls u ≡ some (rest, user)
      → ((i : ℕ) → user ≡ some i → (info : Userinfo) × (user_at heap user ≡ some info))
      → (v : ℕ) × (user' : Option ℕ) × (heap' : UrlHeap Rest Userinfo) × (clone_url (some u) heap
          ≡ (some v, heap'))
        × IsClone heap heap' u v rest user user'
  unfolding clone_url clone_user
  clone_url_apart none found valid = (
    length heap.urls,
    none,
    record heap { urls = heap.urls ++ ((rest, none) ∷ []) },
    ground (arith, found),
    record {
      fresh = get_elem?-length heap.urls;
      copied = get_elem?-last heap.urls (rest, none);
      info = refl;
      kept = get_elem?-append heap.urls _ u (rest, none) found;
      user_kept = refl;
      user_fresh = refl;
    },
  )
  clone_url_apart (some i) found valid =
      let (info, there) = valid i refl in
      let new : Option ℕ = some (length heap.users) in
      (
        length heap.urls,
        new,
        record { urls = heap.urls ++ ((rest, new) ∷ []); users = heap.users ++ (info ∷ []) },
        ground (arith, found, there),
        record {
          fresh = get_elem?-length heap.urls;
          copied = get_elem?-last heap.urls (rest, new);
          info = get_elem?-last heap.users info ∙ sym there;
          kept = get_elem?-append heap.urls _ u (rest, some i) found;
          user_kept = get_elem?-append heap.users _ i info there ∙ sym there;
          user_fresh = get_elem?-length heap.users;
        },
      )
