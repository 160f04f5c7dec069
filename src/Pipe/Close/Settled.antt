-- ===== src/Pipe/Close/Settled.antt =====
-- nc_server.c: what `server_close` leaves of the requests of the connection.
use wx_cache_proxy.Base.{
  ℕ, ◌≡◌, refl, sym, subst, ap, ap₂, not, ◌∙◌, Bool, true, false, ◌&&◌, ◌||◌, [], Option, arith,
  Bool-cases, Option-cases, inl, inr,
}
use wx_cache_proxy.Pipe.State.{Msg, World, set_link}
use wx_cache_proxy.Pipe.Queue.{rsp_put, msg_put}
use wx_cache_proxy.Pipe.Done.Runs.{elem}
use wx_cache_proxy.Pipe.Request.{Protocol, Env}
use wx_cache_proxy.Pipe.Response.Quiet.{AreQuiet}
use wx_cache_proxy.Pipe.Close.{close_in, close_out, server_close}
use wx_cache_proxy.Pipe.Close.Firm.{AreFirm}
use wx_cache_proxy.Pipe.Close.Loop.{
  IsSettled, IsSettled-IsFirm, loop-empties, loop-keeps, loop-firm, loop-settles,
}
use wx_cache_proxy.Pipe.Close.Turn.{
  in_turn, out_turn, in_turn-takes, in_turn-keeps, in_turn-settles, in_turn-firm, out_turn-takes,
  out_turn-keeps, out_turn-settles, out_turn-firm, close_in-loop, close_out-loop,
}

-- `fails` for the two queues.
abbrev fails_in : Msg → Bool
fails_in x = not (x.swallow || x.noreply)

abbrev fails_out : Msg → Bool
fails_out x = not x.swallow

-- The world after the two loops.
abbrev drained : ℕ → Protocol → Env → World → World
drained s protocol env w =
    let w1 : World = set_link w s (record (w.link s) { connected = false }) in
    let w2 : World = close_in protocol env w1 s (w1.link s).imsg_q in
    close_out protocol env w2 s (w2.link s).omsg_q

-- What follows them.
ends :
    (s : ℕ) (protocol : Protocol) (env : Env) (w : World)
    → (w.link s).open_sd ≡ true
    → let w3 : World = drained s protocol env w in
      (((server_close protocol env w s).link s).imsg_q ≡ (w3.link s).imsg_q)
      × (((server_close protocol env w s).link s).omsg_q ≡ (w3.link s).omsg_q)
      × ((server_close protocol env w s).msg ≡ w3.msg)
unfolding server_close rsp_put msg_put
ends s protocol env w o =
    let w1 : World = set_link w s (record (w.link s) { connected = false }) in
    let o1 : (w1.link s).open_sd ≡ true = ground arith in
    let w3 : World = drained s protocol env w in
    elim (Option-cases (w3.link s).rmsg) [
      | inl e ↦ rw (server_close, o1, e) (ground arith, ground arith, refl)
      | inr (r, e) ↦ rw (server_close, o1, e) (ground arith, ground arith, refl)
    ]

module _ (s : ℕ) (protocol : Protocol) (q : AreQuiet s protocol)
    (post : (w : World) (o : Option ℕ) → AreFirm w (protocol.post_coalesce w o)) (env : Env)
    (w : World) (o : (w.link s).open_sd ≡ true) where
  -- When an open connection to a server is closed, both of its queues end empty. The protocol's
  -- handlers leave the connection's queues and the flag `noreply` alone, and `post_coalesce` clears
  -- no flag `done` or `error` and changes no `swallow`.
  pub server_close-empties :
      (((server_close protocol env w s).link s).imsg_q ≡ [])
      × (((server_close protocol env w s).link s).omsg_q ≡ [])
  server_close-empties =
      let w1 : World = set_link w s (record (w.link s) { connected = false }) in
      let w2 : World = close_in protocol env w1 s (w1.link s).imsg_q in
      let end = ends s protocol env w o in
      let in_turns = in_turn s protocol q post env in
      let out_turns = out_turn s protocol q post env in
      let empty_in : (w2.link s).imsg_q ≡ [] =
        ap (λ (v : World). (v.link s).imsg_q)
          (close_in-loop s protocol q post env (w1.link s).imsg_q w1)
        ∙ loop-empties in_turns (λ v. (v.link s).imsg_q) (in_turn-takes s protocol q post env)
            (w1.link s).imsg_q w1 refl in
      let out = close_out-loop s protocol q post env (w2.link s).omsg_q w2 in
      (
        end.0
            ∙ ap (λ (v : World). (v.link s).imsg_q) out
            ∙ loop-keeps out_turns (λ v. (v.link s).imsg_q) (out_turn-keeps s protocol q post env)
                (w2.link s).omsg_q w2
            ∙ empty_in,
        end.1
            ∙ ap (λ (v : World). (v.link s).omsg_q) out
            ∙ loop-empties out_turns (λ v. (v.link s).omsg_q) (out_turn-takes s protocol q post env)
                (w2.link s).omsg_q w2 refl,
      )

  -- When an open connection to a server is closed, every request that a client still waits for is
  -- done and in error: each one not yet sent that is neither to be swallowed nor without a reply,
  -- and each sent one that is not to be swallowed. The protocol's handlers leave the connection's
  -- queues and the flag `noreply` alone, and `post_coalesce` clears no flag `done` or `error` and
  -- changes no `swallow`.
  pub server_close-settles :
      (j : ℕ)
      → ((elem j (w.link s).imsg_q && not ((w.msg j).swallow || (w.msg j).noreply))
          || (elem j (w.link s).omsg_q && not (w.msg j).swallow))
        ≡ true
      → IsSettled ((server_close protocol env w s).msg j)
  unfolding AreFirm
  server_close-settles j h =
      let w1 : World = set_link w s (record (w.link s) { connected = false }) in
      let w2 : World = close_in protocol env w1 s (w1.link s).imsg_q in
      let e_in : (w1.link s).imsg_q ≡ (w.link s).imsg_q = ground arith in
      let e_out : (w1.link s).omsg_q ≡ (w.link s).omsg_q = ground arith in
      let in_turns = in_turn s protocol q post env in
      let out_turns = out_turn s protocol q post env in
      let into = close_in-loop s protocol q post env (w1.link s).imsg_q w1 in
      let out = close_out-loop s protocol q post env (w2.link s).omsg_q w2 in
      let sent : (w2.link s).omsg_q ≡ (w.link s).omsg_q =
        ap (λ (v : World). (v.link s).omsg_q) into
        ∙ loop-keeps in_turns (λ v. (v.link s).omsg_q) (in_turn-keeps s protocol q post env)
            (w1.link s).imsg_q w1
        ∙ e_out in
      let first_half : AreFirm w1 w2 =
        subst (λ v. AreFirm w1 v) (sym into)
          (loop-firm in_turns (in_turn-firm s protocol q post env) (w1.link s).imsg_q w1) in
      subst IsSettled (sym (ap (λ (f : ℕ → Msg). f j) (ends s protocol env w o).2)) (
        subst (λ (v : World). IsSettled (v.msg j)) (sym out)
          (elim (Bool-cases (elem j (w.link s).omsg_q && not (w.msg j).swallow)) [
            | inl late ↦
                loop-settles out_turns (out_turn-firm s protocol q post env) fails_out
                  (λ x y f. ap not f.swallow) (out_turn-settles s protocol q post env)
                  (w2.link s).omsg_q w2 j (ap (elem j) sent ∙ ground arith)
                  (ap not (first_half j).swallow ∙ ground arith)
            | inr early ↦
                let mine : IsSettled (w2.msg j) =
                  subst (λ (v : World). IsSettled (v.msg j)) (sym into)
                    (loop-settles in_turns (in_turn-firm s protocol q post env) fails_in
                      (λ x y f. ap₂ (λ a b. not (a || b)) f.swallow f.noreply)
                      (in_turn-settles s protocol q post env) (w1.link s).imsg_q w1 j
                      (ap (elem j) e_in ∙ ground arith) (ground arith)) in
                IsSettled-IsFirm (w2.msg j) _ mine (
                  loop-firm out_turns (out_turn-firm s protocol q post env) (w2.link s).omsg_q w2 j)
          ]))
