-- ===== src/Pipe/Close/Turn.antt =====
-- nc_server.c: one turn of each of the two loops of `server_close`.
use wx_cache_proxy.Base.{
  ℕ, ◌≡◌, refl, ap, ap₂, not, ◌∙◌, true, false, ◌&&◌, ◌||◌, List, [], ◌∷◌, Option, none, some,
  if◌then◌else◌, arith, Bool-cases, Option-cases, inl, inr,
}
use wx_cache_proxy.Pipe.State.{World, first, remove, set_msg}
use wx_cache_proxy.Pipe.Queue.{
  req_put, req_server_dequeue_imsgq, req_server_dequeue_omsgq, msg_tmo_delete,
}
use wx_cache_proxy.Pipe.Request.{Protocol, Env, req_done}
use wx_cache_proxy.Pipe.Response.Quiet.{
  IsQuiet, AreQuiet, IsQuiet-refl, IsQuiet-trans, IsQuiet-msg, req_put-IsQuiet, req_done-IsQuiet,
}
use wx_cache_proxy.Pipe.Close.{count_fragment, call_client, fail_request, close_in, close_out}
use wx_cache_proxy.Pipe.Close.Firm.{
  AreFirm, firm_trans, msg_tmo_delete-firm, req_put-firm, fail_request-firm, fail_request-settles,
}
use wx_cache_proxy.Pipe.Close.Loop.{IsSettled, loop}

remove-cons : (m : ℕ) (ms : List ℕ) → remove m (m ∷ ms) ≡ ms
unfolding remove
remove-cons m ms = ground arith

module _ (s : ℕ) (protocol : Protocol) (q : AreQuiet s protocol)
    (post : (w : World) (o : Option ℕ) → AreFirm w (protocol.post_coalesce w o)) where
  call_client-IsQuiet : (env : Env) (w : World) (c : ℕ) → IsQuiet s w (call_client protocol env w c)
  unfolding call_client
  call_client-IsQuiet env w c = elim (Option-cases (first (w.client c).omsg_q)) [
    | inl e ↦ rw (call_client, e) (IsQuiet-msg s w (record w { crashed = true }) refl (λ j. refl))
    | inr (m, e) ↦
        let w1 = (req_done protocol w c m).1 in
        elim (Bool-cases ((req_done protocol w c m).0 && env.client_event)) [
          | inl t ↦
              rw (call_client, e, t)
                (IsQuiet-trans s w w1 _ (req_done-IsQuiet s protocol q w c m)
                  (IsQuiet-msg s w1 _ refl (λ j. refl)))
          | inr f ↦ rw (call_client, e, f) (req_done-IsQuiet s protocol q w c m)
        ]
  ]

  count_fragment-IsQuiet : (w : World) (o : Option ℕ) → IsQuiet s w (count_fragment w o)
  unfolding count_fragment
  count_fragment-IsQuiet w none = IsQuiet-refl s w
  count_fragment-IsQuiet w (some o) = IsQuiet-msg s w _ refl (λ j. ground arith)

  fail_request-IsQuiet :
      (env : Env) (w : World) (m : ℕ) → IsQuiet s w (fail_request protocol env w s m)
  unfolding fail_request
  fail_request-IsQuiet env w m =
      let w1 : World =
        set_msg w m (record (w.msg m) { done = true; error = true; err = (w.link s).err }) in
      let w2 : World = count_fragment w1 (w1.msg m).frag_owner in
      IsQuiet-trans s w w1 _ (IsQuiet-msg s w w1 refl (λ j. ground arith)) (
        IsQuiet-trans s w1 w2 _ (count_fragment-IsQuiet w1 (w1.msg m).frag_owner)
          (call_client-IsQuiet env w2 (w2.msg m).owner))

  in_dequeue-firm : (w : World) (m : ℕ) → AreFirm w (req_server_dequeue_imsgq w s m)
  unfolding AreFirm req_server_dequeue_imsgq
  in_dequeue-firm w m j = record { done = λ h. h; error = λ h. h; swallow = refl; noreply = refl }

  out_dequeue-firm : (w : World) (m : ℕ) → AreFirm w (req_server_dequeue_omsgq w s m)
  unfolding AreFirm req_server_dequeue_omsgq
  out_dequeue-firm w m = msg_tmo_delete-firm w m

  in_dequeue-imsg_q :
      (w : World) (m : ℕ)
      → ((req_server_dequeue_imsgq w s m).link s).imsg_q ≡ remove m (w.link s).imsg_q
  unfolding req_server_dequeue_imsgq
  in_dequeue-imsg_q w m = ground arith

  in_dequeue-omsg_q :
      (w : World) (m : ℕ) → ((req_server_dequeue_imsgq w s m).link s).omsg_q ≡ (w.link s).omsg_q
  unfolding req_server_dequeue_imsgq
  in_dequeue-omsg_q w m = ground arith

  out_dequeue-omsg_q :
      (w : World) (m : ℕ)
      → ((req_server_dequeue_omsgq w s m).link s).omsg_q ≡ remove m (w.link s).omsg_q
  unfolding req_server_dequeue_omsgq msg_tmo_delete
  out_dequeue-omsg_q w m = ground arith

  out_dequeue-imsg_q :
      (w : World) (m : ℕ) → ((req_server_dequeue_omsgq w s m).link s).imsg_q ≡ (w.link s).imsg_q
  unfolding req_server_dequeue_omsgq msg_tmo_delete
  out_dequeue-imsg_q w m = ground arith

  -- One turn of the loop over `imsg_q`.
  abbrev pub in_turn : Env → World → ℕ → World
  in_turn env w m =
      let w1 : World = req_server_dequeue_imsgq w s m in
      if (w1.msg m).swallow || (w1.msg m).noreply
      then req_put w1 m
      else fail_request protocol env w1 s m

  in_turn-IsQuiet :
      (env : Env) (w : World) (m : ℕ) → IsQuiet s (req_server_dequeue_imsgq w s m) (in_turn env w m)
  in_turn-IsQuiet env w m =
      let w1 : World = req_server_dequeue_imsgq w s m in
      elim (Bool-cases ((w1.msg m).swallow || (w1.msg m).noreply)) [
        | inl t ↦ rw t (req_put-IsQuiet s w1 m)
        | inr f ↦ rw f (fail_request-IsQuiet env w1 m)
      ]

  pub in_turn-firm : (env : Env) (w : World) (m : ℕ) → AreFirm w (in_turn env w m)
  in_turn-firm env w m =
      let w1 : World = req_server_dequeue_imsgq w s m in
      elim (Bool-cases ((w1.msg m).swallow || (w1.msg m).noreply)) [
        | inl t ↦ rw t (firm_trans w w1 _ (in_dequeue-firm w m) (req_put-firm w1 m))
        | inr f ↦
            rw f
              (firm_trans w w1 _ (in_dequeue-firm w m) (fail_request-firm protocol post env w1 s m))
      ]

  -- One turn of the loop over `omsg_q`.
  abbrev pub out_turn : Env → World → ℕ → World
  out_turn env w m =
      let w1 : World = req_server_dequeue_omsgq w s m in
      if (w1.msg m).swallow then req_put w1 m else fail_request protocol env w1 s m

  out_turn-IsQuiet :
      (env : Env) (w : World) (m : ℕ)
      → IsQuiet s (req_server_dequeue_omsgq w s m) (out_turn env w m)
  out_turn-IsQuiet env w m =
      let w1 : World = req_server_dequeue_omsgq w s m in
      elim (Bool-cases ((w1.msg m).swallow)) [
        | inl t ↦ rw t (req_put-IsQuiet s w1 m)
        | inr f ↦ rw f (fail_request-IsQuiet env w1 m)
      ]

  pub out_turn-firm : (env : Env) (w : World) (m : ℕ) → AreFirm w (out_turn env w m)
  out_turn-firm env w m =
      let w1 : World = req_server_dequeue_omsgq w s m in
      elim (Bool-cases ((w1.msg m).swallow)) [
        | inl t ↦ rw t (firm_trans w w1 _ (out_dequeue-firm w m) (req_put-firm w1 m))
        | inr f ↦
            rw f (
              firm_trans w w1 _ (out_dequeue-firm w m) (fail_request-firm protocol post env w1 s m))
      ]

  pub in_turn-takes :
      (env : Env) (w : World) (m : ℕ) (ms : List ℕ)
      → (w.link s).imsg_q ≡ m ∷ ms
      → ((in_turn env w m).link s).imsg_q ≡ ms
  in_turn-takes env w m ms e =
      (in_turn-IsQuiet env w m).unsent ∙ in_dequeue-imsg_q w m ∙ ap (remove m) e ∙ remove-cons m ms

  pub in_turn-keeps :
      (env : Env) (w : World) (m : ℕ) → ((in_turn env w m).link s).omsg_q ≡ (w.link s).omsg_q
  in_turn-keeps env w m = (in_turn-IsQuiet env w m).sent ∙ in_dequeue-omsg_q w m

  pub in_turn-settles :
      (env : Env) (w : World) (m : ℕ)
      → not ((w.msg m).swallow || (w.msg m).noreply) ≡ true
      → IsSettled ((in_turn env w m).msg m)
  unfolding AreFirm
  in_turn-settles env w m e =
      let w1 : World = req_server_dequeue_imsgq w s m in
      let f : (w1.msg m).swallow || (w1.msg m).noreply ≡ false =
        ap₂ (λ a b. a || b) (in_dequeue-firm w m m).swallow (in_dequeue-firm w m m).noreply
        ∙ ground arith in
      let x = fail_request-settles protocol post env w1 s m in
      rw f (record { done = x.0; error = x.1 })

  pub out_turn-takes :
      (env : Env) (w : World) (m : ℕ) (ms : List ℕ)
      → (w.link s).omsg_q ≡ m ∷ ms
      → ((out_turn env w m).link s).omsg_q ≡ ms
  out_turn-takes env w m ms e =
      (out_turn-IsQuiet env w m).sent ∙ out_dequeue-omsg_q w m ∙ ap (remove m) e ∙ remove-cons m ms

  pub out_turn-keeps :
      (env : Env) (w : World) (m : ℕ) → ((out_turn env w m).link s).imsg_q ≡ (w.link s).imsg_q
  out_turn-keeps env w m = (out_turn-IsQuiet env w m).unsent ∙ out_dequeue-imsg_q w m

  pub out_turn-settles :
      (env : Env) (w : World) (m : ℕ)
      → not (w.msg m).swallow ≡ true
      → IsSettled ((out_turn env w m).msg m)
  unfolding AreFirm
  out_turn-settles env w m e =
      let w1 : World = req_server_dequeue_omsgq w s m in
      let f : (w1.msg m).swallow ≡ false = (out_dequeue-firm w m m).swallow ∙ ground arith in
      let x = fail_request-settles protocol post env w1 s m in
      rw f (record { done = x.0; error = x.1 })

  pub close_in-loop :
      (env : Env) (ms : List ℕ) (w : World) → close_in protocol env w s ms ≡ loop (in_turn env) w ms
  unfolding close_in loop
  close_in-loop env [] w = refl
  close_in-loop env (m ∷ ms) w = close_in-loop env ms (in_turn env w m)

  pub close_out-loop :
      (env : Env) (ms : List ℕ) (w : World)
      → close_out protocol env w s ms ≡ loop (out_turn env) w ms
  unfolding close_out loop
  close_out-loop env [] w = refl
  close_out-loop env (m ∷ ms) w = close_out-loop env ms (out_turn env w m)
