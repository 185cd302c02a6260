-- ===== src/Startup/Live.antt =====
-- Requests during the start of pkg/server/server.go: `NewHTTPEdgeListener` of
-- pkg/server/listeners.go serves from a goroutine of its own as soon as its socket is open, and the
-- loop of `Server` attaches the sites after that. An `AddSite` and a request are one step each, and
-- may come in any order; two that overlap are a data race on the maps of the trie, which Go leaves
-- undefined.
pub mod Parts
pub mod Answers
pub mod Served
use proxyreverse.Prelude.{◌≡◌, List, [], ◌∷◌, some, Text, lookup, insert, ok}
use proxyreverse.Go.Lo.{Lo}
use proxyreverse.Listener.{HttpEdgeListener, Answer, handler}
use proxyreverse.Startup.{SiteKey, SiteMapping, Listeners, attach_site}

-- A request that was answered: the name of its listener, its `Host`, and what the handler did.
pub record Reply (B : Type 0) : Type 0 where
  pub listener : Text
  pub host : Text
  pub answer : Answer B

-- The sites that the loop has still to attach, the listeners, and the replies, the latest first.
pub record Live (B : Type 0) : Type 0 where
  pub remaining : SiteMapping B
  pub listeners : Listeners B
  pub replies : List (Reply B)

abbrev pub starting : {B : Type 0} → SiteMapping B → Listeners B → Live B
starting mapping listeners = record { remaining = mapping; listeners = listeners; replies = [] }

-- The loop attaches its next site; or a listener answers a request.
pub data Step (lo : Lo) {B : Type 0} : Live B → Live B → Type 0 where
  attaches :
      (s : Live B) (key : SiteKey) (b : B) (more : SiteMapping B) (l : HttpEdgeListener B)
      → s.remaining ≡ (key, b) ∷ more
      → attach_site lo key b (lookup key.listener s.listeners) ≡ ok l
      → Step lo s
          (record s { remaining = more; listeners = insert key.listener (some l) s.listeners })
  answers :
      (s : Live B) (name host : Text) (l : HttpEdgeListener B)
      → lookup name s.listeners ≡ some (some l)
      → Step lo s (record s {
        replies = record { listener = name; host = host; answer = handler lo host l } ∷ s.replies;
      })

pub data Reaches (lo : Lo) {B : Type 0} (s : Live B) : Live B → Type 0 where
  here : Reaches lo s s
  next : {t u : Live B} → Reaches lo s t → Step lo t u → Reaches lo s u
