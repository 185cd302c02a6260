-- ===== src/Backend/Headers.antt =====
-- The headers of a forwarded request and of its response: pkg/server/backends.go.
use proxyreverse.Prelude.{
  insert, delete, ◌≡◌, refl, ap, ◌∙◌, Option, none, some, List, [], ◌∷◌, Text, arith, lookup,
  contains, HasDistinctKeys, lookup-insert, lookup-delete, text_eq_iff, if◌then◌else◌, Result-cases,
  inl, inr, ok, sym,
}
use proxyreverse.Http.{Header, Request, HttpBackend}
use proxyreverse.Target.{get_target}
use proxyreverse.Target.Keeps.{get_target_keeps}
use proxyreverse.Backend.{
  set_all, delete_all, retarget_tls, outbound_of, edit_headers, serve_http, serve_at, Served,
  Exchange, ClientTls, Response,
}

abbrev pub or_else {ℓ} : {A : Type ℓ} → Option A → Option A → Option A
or_else none p = p
or_else (some a) p = some a

pub lookup-set_all :
    (k : Text) (s h : Header)
    → HasDistinctKeys s
    → lookup k (set_all s h) ≡ or_else (lookup k s) (lookup k h)
unfolding set_all lookup
lookup-set_all k [] h d = refl
lookup-set_all k ((j, v) ∷ s) h (fresh, d) =
    ground (arith, lookup-set_all k s (insert j v h) d, lookup-insert j k v h, text_eq_iff j k)

pub lookup-delete_all :
    (k : Text) (ks : List Text) (h : Header)
    → lookup k (delete_all ks h) ≡ (if contains k ks then none else lookup k h)
unfolding delete_all contains
lookup-delete_all k [] h = refl
lookup-delete_all k (j ∷ ks) h =
    ground (arith, lookup-delete_all k ks (delete j h), lookup-delete j k h, text_eq_iff j k)

module _ {D : Type 0} (backend : HttpBackend D) where
  pub lookup-edit_headers :
      (k : Text) (request : Request)
      → HasDistinctKeys backend.set_headers
      → lookup k (edit_headers backend request).header ≡ (
          if contains k backend.del_headers
          then none
          else or_else (lookup k backend.set_headers) (lookup k request.header))
  unfolding edit_headers
  lookup-edit_headers k request d = ground (
    arith,
    lookup-delete_all k backend.del_headers (set_all backend.set_headers request.header),
    lookup-set_all k backend.set_headers request.header d,
  )

  -- A request that is served was edited by the two loops and the selector, in that order.
  pub serve_http-inv :
      (exchange : Exchange D) (headers : Header) (client : ClientTls) (request : Request)
      (s : Served)
      → serve_http backend exchange headers client request ≡ ok s
      → (target : Text) × (r : Request) × (get_target backend
            (edit_headers backend request)
            backend.target_selector
          ≡ ok (target, r))
        × (s ≡ serve_at backend exchange headers client (target, r))
  unfolding serve_http
  serve_http-inv exchange headers client request s e =
      elim (Result-cases
        (get_target backend (edit_headers backend request) backend.target_selector)) [
          | inr (p, panicked) ↦ absurd (ground (arith, panicked))
          | inl ((target, r), found) ↦ (target, r, found, ground (arith, found))
        ]

  -- The headers of the request sent: a deleted name has none, whatever is set for it; any other
  -- name has the values to set, or else those of the incoming request. The names to set differ
  -- from one another, and names are compared byte by byte. The incoming request is left with the
  -- same headers as the request sent.
  pub serve_http_headers :
      (exchange : Exchange D) (headers : Header) (client : ClientTls) (request : Request)
      (s : Served) (k : Text)
      → HasDistinctKeys backend.set_headers
      → serve_http backend exchange headers client request ≡ ok s
      → (lookup k s.outbound.headers ≡ (
          if contains k backend.del_headers
          then none
          else or_else (lookup k backend.set_headers) (lookup k request.header)))
        × (s.request.header ≡ s.outbound.headers)
  unfolding serve_http
  serve_http_headers exchange headers client request s k d e =
      let (target, r, found, same) = serve_http-inv exchange headers client request s e in
      let kept =
        get_target_keeps backend (edit_headers backend request) backend.target_selector target r
          found in
      let h : r.header ≡ (edit_headers backend request).header =
        ap (λ (q : Request). q.header) kept in
      ground (arith, same, h, lookup-edit_headers k request d)

  -- An exchange without a response is answered by 502, on the headers that the writer had.
  serve_http_bad_gateway :
      (exchange : Exchange D) (headers : Header) (client : ClientTls) (request : Request)
      (s : Served)
      → serve_http backend exchange headers client request ≡ ok s
      → exchange backend.dial s.client s.outbound ≡ none
      → (s.status ≡ 502) × (s.headers ≡ headers) × (s.body ≡ [])
  unfolding serve_http
  serve_http_bad_gateway exchange headers client request s e no_response =
      let (target, r, found, same) = serve_http-inv exchange headers client request s e in
      let missing : exchange backend.dial (retarget_tls backend target client)
            (outbound_of backend target r)
          ≡ none =
        sym (ap (λ (q : Served). exchange backend.dial q.client q.outbound) same) ∙ no_response in
      ground (arith, same, missing)

  -- A response is passed on with its status and its body, and each of its headers, differing from
  -- one another, takes the place of what the writer had.
  pub serve_http_response :
      (exchange : Exchange D) (headers : Header) (client : ClientTls) (request : Request)
      (s : Served) (response : Response) (k : Text)
      → serve_http backend exchange headers client request ≡ ok s
      → exchange backend.dial s.client s.outbound ≡ some response
      → HasDistinctKeys response.header
      → (s.status ≡ response.status_code)
        × (s.body ≡ response.body)
        × (lookup k s.headers ≡ or_else (lookup k response.header) (lookup k headers))
  unfolding serve_http
  serve_http_response exchange headers client request s response k e got d =
      let (target, r, found, same) = serve_http-inv exchange headers client request s e in
      let given : exchange backend.dial (retarget_tls backend target client)
            (outbound_of backend target r)
          ≡ some response =
        sym (ap (λ (q : Served). exchange backend.dial q.client q.outbound) same) ∙ got in
      ground (arith, same, given, lookup-set_all k response.header headers d)
