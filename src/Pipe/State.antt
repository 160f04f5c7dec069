-- ===== src/Pipe/State.antt =====
-- The state that the pipeline shares: the fields of `struct msg` and `struct conn` that it reads or
-- writes. Messages and connections are numbers; the pointers between them are those numbers.
use wx_cache_proxy.Base.{
  ℕ, Bool, true, false, List, [], ◌∷◌, Option, none, some, ◌==◌, if◌then◌else◌,
}

-- `timer` is the entry in the timeout tree, if there is one: its key and its connection.
pub record Msg : Type 0 where
  pub id : ℕ
  pub peer : Option ℕ
  pub owner : ℕ
  pub timer : Option (ℕ × ℕ)
  pub mlen : ℕ
  pub frag_owner : Option ℕ
  pub nfrag : ℕ
  pub nfrag_done : ℕ
  pub frag_id : ℕ
  pub err : ℕ
  pub error : Bool
  pub ferror : Bool
  pub request : Bool
  pub quit : Bool
  pub noreply : Bool
  pub noforward : Bool
  pub done : Bool
  pub fdone : Bool
  pub swallow : Bool

-- `out` is the interest in write events that `event_add_out` and `event_del_out` switch. `looped` says
-- that a message was inserted into `omsg_q` while it was linked there: its link is overwritten, the
-- queue in memory is no list from then on, and `omsg_q` only tells what was inserted.
pub record Client : Type 0 where
  pub omsg_q : List ℕ
  pub rmsg : Option ℕ
  pub smsg : Option ℕ
  pub err : ℕ
  pub eof : Bool
  pub done : Bool
  pub recv_ready : Bool
  pub authenticated : Bool
  pub out : Bool
  pub looped : Bool

-- A connection to a server. `timeout` is the pool's, 0 standing for none; `open_sd` is `sd >= 0`.
pub record Link : Type 0 where
  pub imsg_q : List ℕ
  pub omsg_q : List ℕ
  pub rmsg : Option ℕ
  pub smsg : Option ℕ
  pub err : ℕ
  pub eof : Bool
  pub done : Bool
  pub connecting : Bool
  pub connected : Bool
  pub authenticated : Bool
  pub open_sd : Bool
  pub out : Bool
  pub timeout : ℕ

-- `free` is `free_msgq`, `made` the number of messages ever allocated, and `msg_id` the counter.
-- `crashed` says that the fields of a null message were read.
pub record World : Type 0 where
  pub msg : ℕ → Msg
  pub client : ℕ → Client
  pub link : ℕ → Link
  pub free : List ℕ
  pub made : ℕ
  pub msg_id : ℕ
  pub crashed : Bool

abbrev pub update {ℓ} : {A : Type ℓ} → (ℕ → A) → ℕ → A → ℕ → A
update f k a j = if j == k then a else f j

abbrev pub set_msg : World → ℕ → Msg → World
set_msg w m x = record w { msg = update w.msg m x }

abbrev pub set_client : World → ℕ → Client → World
set_client w c x = record w { client = update w.client c x }

abbrev pub set_link : World → ℕ → Link → World
set_link w s x = record w { link = update w.link s x }

-- `TAILQ_REMOVE`, which takes out the one place where a message is linked.
unfoldable pub remove : ℕ → List ℕ → List ℕ
remove m [] = []
remove m (x ∷ q) = if x == m then q else x ∷ remove m q

-- Whether a message is linked in a queue.
unfoldable pub linked : ℕ → List ℕ → Bool
linked m [] = false
linked m (x ∷ q) = if x == m then true else linked m q

unfoldable pub first : List ℕ → Option ℕ
first [] = none
first (x ∷ q) = some x

-- `TAILQ_NEXT` of a message that is linked.
unfoldable pub behind : ℕ → List ℕ → List ℕ
behind m [] = []
behind m (x ∷ q) = if x == m then q else behind m q

-- The messages that repeated `TAILQ_PREV` visits, nearest first; `seen` are those passed so far.
unfoldable pub before_from : List ℕ → ℕ → List ℕ → List ℕ
before_from seen m [] = []
before_from seen m (x ∷ q) = if x == m then seen else before_from (x ∷ seen) m q

abbrev pub before : ℕ → List ℕ → List ℕ
before m q = before_from [] m q
