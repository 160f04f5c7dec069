-- ===== src/Pipe/Response/Waiting.antt =====
-- The two queues of a server connection as one: the requests that the server has to answer.
use wx_cache_proxy.Base.{
  ℕ, ◌≡◌, refl, sym, ap, ap₂, ◌∙◌, List, [], ◌∷◌, ◌++◌, some, if◌then◌else◌, arith,
}
use mathlib.Core.List.{append_assoc, append-nil}
use wx_cache_proxy.Pipe.State.{Msg, World, first, remove}
use wx_cache_proxy.Pipe.Queue.{
  msg_tmo_insert, msg_tmo_delete, req_server_enqueue_imsgq, req_server_dequeue_imsgq,
  req_server_enqueue_omsgq, req_server_dequeue_omsgq,
}
use wx_cache_proxy.Pipe.Request.{req_send_done}
use wx_cache_proxy.Pipe.Response.Quiet.{IsQuiet, req_put-IsQuiet}

-- The requests of a queue that a server answers.
unfoldable pub kept : (ℕ → Msg) → List ℕ → List ℕ
kept msg [] = []
kept msg (x ∷ q) = let rest = kept msg q in if (msg x).noreply then rest else x ∷ rest

-- The requests that a server has to answer yet, oldest first.
unfoldable pub waiting : World → ℕ → List ℕ
waiting w s = (w.link s).omsg_q ++ kept w.msg (w.link s).imsg_q

kept-ext :
    (f g : ℕ → Msg) (q : List ℕ) → ((j : ℕ) → (f j).noreply ≡ (g j).noreply) → kept f q ≡ kept g q
unfolding kept
kept-ext f g [] h = refl
kept-ext f g (x ∷ q) h = ground (arith, h x, kept-ext f g q h)

pub waiting-IsQuiet : (s : ℕ) (w w' : World) → IsQuiet s w w' → waiting w' s ≡ waiting w s
unfolding waiting
waiting-IsQuiet s w w' h =
    ap₂ ◌++◌ h.sent (kept-ext w'.msg w.msg (w'.link s).imsg_q h.flags ∙ ap (kept w.msg) h.unsent)

remove-first : (q : List ℕ) (m : ℕ) → first q ≡ some m → m ∷ remove m q ≡ q
unfolding remove first
remove-first [] m e = cc
remove-first (x ∷ q) m e = ground arith

dequeue-omsg_q :
    (w : World) (s m : ℕ)
    → ((req_server_dequeue_omsgq w s m).link s).omsg_q ≡ remove m (w.link s).omsg_q
unfolding req_server_dequeue_omsgq msg_tmo_delete
dequeue-omsg_q w s m = ground arith

dequeue-imsg_q :
    (w : World) (s m : ℕ) → ((req_server_dequeue_omsgq w s m).link s).imsg_q ≡ (w.link s).imsg_q
unfolding req_server_dequeue_omsgq msg_tmo_delete
dequeue-imsg_q w s m = ground arith

dequeue-noreply :
    (w : World) (s m j : ℕ) → ((req_server_dequeue_omsgq w s m).msg j).noreply ≡ (w.msg j).noreply
unfolding req_server_dequeue_omsgq msg_tmo_delete
dequeue-noreply w s m j = ground arith

-- A step that takes the oldest sent request off, with steps that leave the queues alone around it.
pub answers :
    (s : ℕ) (w a b : World) (m : ℕ)
    → first (w.link s).omsg_q ≡ some m
    → IsQuiet s w a
    → IsQuiet s (req_server_dequeue_omsgq a s m) b
    → m ∷ waiting b s ≡ waiting w s
unfolding waiting
answers s w a b m e x y =
    let d : World = req_server_dequeue_omsgq a s m in
    let sent : m ∷ (d.link s).omsg_q ≡ (w.link s).omsg_q =
      ap (◌∷◌ m) (dequeue-omsg_q a s m ∙ ap (remove m) x.sent)
      ∙ remove-first (w.link s).omsg_q m e in
    ap (◌∷◌ m) (
      waiting-IsQuiet s d b y
      ∙ ap ((d.link s).omsg_q ++◌) (
          kept-ext d.msg w.msg (d.link s).imsg_q (λ j. dequeue-noreply a s m j ∙ x.flags j)
          ∙ ap (kept w.msg) (dequeue-imsg_q a s m ∙ x.unsent)))
    ∙ ap (λ l. l ++ kept w.msg (w.link s).imsg_q) sent

kept-first :
    (msg : ℕ → Msg) (q : List ℕ) (m : ℕ)
    → first q ≡ some m
    → kept msg q ≡ (if (msg m).noreply then [] else m ∷ []) ++ kept msg (remove m q)
unfolding kept first remove
kept-first msg [] m e = cc
kept-first msg (x ∷ q) m e = ground arith

kept-append : (msg : ℕ → Msg) (q r : List ℕ) → kept msg (q ++ r) ≡ kept msg q ++ kept msg r
unfolding kept
kept-append msg [] r = refl
kept-append msg (x ∷ q) r = ground (arith, kept-append msg q r)

-- The head of the queue as it has been written: it goes over to the sent ones, or is put back.
written-omsg_q :
    (w : World) (s m : ℕ)
    → ((req_send_done w s m).link s).omsg_q
      ≡ (w.link s).omsg_q ++ (if (w.msg m).noreply then [] else m ∷ [])
unfolding req_send_done req_server_dequeue_imsgq req_server_enqueue_omsgq
written-omsg_q w s m =
    let x = req_put-IsQuiet s (req_server_dequeue_imsgq w s m) m in
    ground (arith, x.sent, append-nil (w.link s).omsg_q)

written-imsg_q :
    (w : World) (s m : ℕ) → ((req_send_done w s m).link s).imsg_q ≡ remove m (w.link s).imsg_q
unfolding req_send_done req_server_dequeue_imsgq req_server_enqueue_omsgq
written-imsg_q w s m =
    let x = req_put-IsQuiet s (req_server_dequeue_imsgq w s m) m in ground (arith, x.unsent)

written-noreply :
    (w : World) (s m j : ℕ) → ((req_send_done w s m).msg j).noreply ≡ (w.msg j).noreply
unfolding req_send_done req_server_dequeue_imsgq req_server_enqueue_omsgq
written-noreply w s m j =
    let x = req_put-IsQuiet s (req_server_dequeue_imsgq w s m) m in ground (arith, x.flags j)

pub sends :
    (w : World) (s m : ℕ)
    → first (w.link s).imsg_q ≡ some m
    → waiting (req_send_done w s m) s ≡ waiting w s
unfolding waiting
sends w s m e =
    let q = (w.link s).imsg_q in
    let me : List ℕ = if (w.msg m).noreply then [] else m ∷ [] in
    ap₂ ◌++◌ (written-omsg_q w s m) (
      kept-ext (req_send_done w s m).msg w.msg _ (written-noreply w s m)
      ∙ ap (kept w.msg) (written-imsg_q w s m))
    ∙ append_assoc (w.link s).omsg_q me (kept w.msg (remove m q))
    ∙ ap ((w.link s).omsg_q ++◌) (sym (kept-first w.msg q m e))

arrived-omsg_q :
    (w : World) (s m now : ℕ)
    → ((req_server_enqueue_imsgq w s m now).link s).omsg_q ≡ (w.link s).omsg_q
unfolding req_server_enqueue_imsgq msg_tmo_insert
arrived-omsg_q w s m now = ground arith

arrived-imsg_q :
    (w : World) (s m now : ℕ)
    → ((req_server_enqueue_imsgq w s m now).link s).imsg_q ≡ (w.link s).imsg_q ++ m ∷ []
unfolding req_server_enqueue_imsgq msg_tmo_insert
arrived-imsg_q w s m now = ground arith

arrived-noreply :
    (w : World) (s m now j : ℕ)
    → ((req_server_enqueue_imsgq w s m now).msg j).noreply ≡ (w.msg j).noreply
unfolding req_server_enqueue_imsgq msg_tmo_insert
arrived-noreply w s m now j = ground arith

pub arrives :
    (w : World) (s m now : ℕ)
    → waiting (req_server_enqueue_imsgq w s m now) s
      ≡ waiting w s ++ (if (w.msg m).noreply then [] else m ∷ [])
unfolding waiting kept
arrives w s m now =
    let q = (w.link s).imsg_q in
    let w' : World = req_server_enqueue_imsgq w s m now in
    ap₂ ◌++◌ (arrived-omsg_q w s m now) (
      kept-ext w'.msg w.msg _ (arrived-noreply w s m now)
      ∙ ap (kept w.msg) (arrived-imsg_q w s m now)
      ∙ kept-append w.msg q (m ∷ []))
    ∙ sym (append_assoc (w.link s).omsg_q (kept w.msg q) _)
