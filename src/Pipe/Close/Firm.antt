-- ===== src/Pipe/Close/Firm.antt =====
-- nc_server.c: the flags of requests in the steps of `server_close`.
use wx_cache_proxy.Base.{
  ℕ, ◌≡◌, refl, ◌∙◌, true, ◌&&◌, List, [], ◌∷◌, Option, none, some, arith, Bool-cases, Option-cases,
  inl, inr,
}
use wx_cache_proxy.Pipe.State.{Msg, World, update, first, set_msg, set_client}
use wx_cache_proxy.Pipe.Queue.{msg_put, rsp_put, drop_peer, msg_tmo_delete, req_put}
use wx_cache_proxy.Pipe.Done.{mark_fdone, siblings}
use wx_cache_proxy.Pipe.Done.Runs.{req_done-cases}
use wx_cache_proxy.Pipe.Request.{Protocol, Env, req_done}
use wx_cache_proxy.Pipe.Close.{count_fragment, call_client, fail_request}

-- What a message keeps: `done` and `error` once set, `swallow` and `noreply` as they are.
pub record IsFirm (x y : Msg) : Type 0 where
  pub done : x.done ≡ true → y.done ≡ true
  pub error : x.error ≡ true → y.error ≡ true
  pub swallow : y.swallow ≡ x.swallow
  pub noreply : y.noreply ≡ x.noreply

unfoldable pub AreFirm : World → World → Type 0
AreFirm w w' = (j : ℕ) → IsFirm (w.msg j) (w'.msg j)

pub firm_trans : (a b c : World) → AreFirm a b → AreFirm b c → AreFirm a c
unfolding AreFirm
firm_trans a b c x y j = record {
  done = λ h. (y j).done ((x j).done h);
  error = λ h. (y j).error ((x j).error h);
  swallow = (y j).swallow ∙ (x j).swallow;
  noreply = (y j).noreply ∙ (x j).noreply;
}

pub firm_refl : (w : World) → AreFirm w w
unfolding AreFirm
firm_refl w j = record { done = λ h. h; error = λ h. h; swallow = refl; noreply = refl }

drop_peer-firm : (w : World) (m : ℕ) → AreFirm w (drop_peer w m)
unfolding AreFirm drop_peer rsp_put msg_put
drop_peer-firm w m j = record {
  done = λ h. ground arith;
  error = λ h. ground arith;
  swallow = ground arith;
  noreply = ground arith;
}

pub msg_tmo_delete-firm : (w : World) (m : ℕ) → AreFirm w (msg_tmo_delete w m)
unfolding AreFirm msg_tmo_delete
msg_tmo_delete-firm w m j = record {
  done = λ h. ground arith;
  error = λ h. ground arith;
  swallow = ground arith;
  noreply = ground arith;
}

pub req_put-firm : (w : World) (m : ℕ) → AreFirm w (req_put w m)
unfolding AreFirm req_put msg_put
req_put-firm w m =
    firm_trans w (drop_peer w m) (req_put w m) (drop_peer-firm w m)
      (msg_tmo_delete-firm (drop_peer w m) m)

mark_fdone-IsFirm : (msg : ℕ → Msg) (q : List ℕ) (j : ℕ) → IsFirm (msg j) (mark_fdone msg q j)
unfolding mark_fdone
mark_fdone-IsFirm msg [] j = record {
  done = λ h. h;
  error = λ h. h;
  swallow = refl;
  noreply = refl;
}
mark_fdone-IsFirm msg (x ∷ q) j =
    let r = mark_fdone-IsFirm (update msg x (record (msg x) { fdone = true })) q j in
    record {
      done = λ h. r.done (ground arith);
      error = λ h. r.error (ground arith);
      swallow = r.swallow ∙ ground arith;
      noreply = r.noreply ∙ ground arith;
    }

out-firm : (w : World) (c : ℕ) → AreFirm w (set_client w c (record (w.client c) { out = true }))
unfolding AreFirm
out-firm w c j = record { done = λ h. h; error = λ h. h; swallow = refl; noreply = refl }

crash-firm : (w : World) → AreFirm w (record w { crashed = true })
unfolding AreFirm
crash-firm w j = record { done = λ h. h; error = λ h. h; swallow = refl; noreply = refl }

marked_world-firm : (w : World) (q : List ℕ) → AreFirm w (record w { msg = mark_fdone w.msg q })
unfolding AreFirm
marked_world-firm w q j = mark_fdone-IsFirm w.msg q j

module _ (protocol : Protocol)
    (post : (w : World) (o : Option ℕ) → AreFirm w (protocol.post_coalesce w o)) where
  req_done-firm : (w : World) (c m : ℕ) → AreFirm w (req_done protocol w c m).1
  unfolding req_done
  req_done-firm w c m =
      let queue = (w.client c).omsg_q in
      let marked : World = record w { msg = mark_fdone w.msg (m ∷ siblings w.msg m queue) } in
      elim (req_done-cases protocol.post_coalesce w queue m) [
        | inl e ↦ rw e (firm_refl w)
        | inr e ↦ rw e (
            firm_trans w marked _ (marked_world-firm w (m ∷ siblings w.msg m queue))
              (post marked (w.msg m).frag_owner))
      ]

  call_client-firm : (env : Env) (w : World) (c : ℕ) → AreFirm w (call_client protocol env w c)
  unfolding call_client
  call_client-firm env w c = elim (Option-cases (first (w.client c).omsg_q)) [
    | inl e ↦ rw (call_client, e) (crash-firm w)
    | inr (m, e) ↦
        let w1 = (req_done protocol w c m).1 in
        elim (Bool-cases ((req_done protocol w c m).0 && env.client_event)) [
          | inl t ↦ rw (call_client, e, t) (firm_trans w w1 _ (req_done-firm w c m) (out-firm w1 c))
          | inr f ↦ rw (call_client, e, f) (req_done-firm w c m)
        ]
  ]

  fail-firm :
      (w : World) (m err : ℕ)
      → AreFirm w (set_msg w m (record (w.msg m) { done = true; error = true; err = err }))
  unfolding AreFirm
  fail-firm w m err j = record {
    done = λ h. ground arith;
    error = λ h. ground arith;
    swallow = ground arith;
    noreply = ground arith;
  }

  count_fragment-firm : (w : World) (o : Option ℕ) → AreFirm w (count_fragment w o)
  unfolding AreFirm count_fragment
  count_fragment-firm w none j = record {
    done = λ h. h;
    error = λ h. h;
    swallow = refl;
    noreply = refl;
  }
  count_fragment-firm w (some o) j = record {
    done = λ h. ground arith;
    error = λ h. ground arith;
    swallow = ground arith;
    noreply = ground arith;
  }

  -- The steps of `fail_request` after the marks.
  marked-firm :
      (env : Env) (w : World) (s m : ℕ)
      → AreFirm
          (set_msg w m (record (w.msg m) { done = true; error = true; err = (w.link s).err }))
          (fail_request protocol env w s m)
  unfolding fail_request
  marked-firm env w s m =
      let w1 : World =
        set_msg w m (record (w.msg m) { done = true; error = true; err = (w.link s).err }) in
      let w2 : World = count_fragment w1 (w1.msg m).frag_owner in
      firm_trans w1 w2 _ (count_fragment-firm w1 (w1.msg m).frag_owner)
        (call_client-firm env w2 (w2.msg m).owner)

  pub fail_request-firm :
      (env : Env) (w : World) (s m : ℕ) → AreFirm w (fail_request protocol env w s m)
  fail_request-firm env w s m =
      firm_trans w _ _ (fail-firm w m (w.link s).err) (marked-firm env w s m)

  pub fail_request-settles :
      (env : Env) (w : World) (s m : ℕ)
      → (((fail_request protocol env w s m).msg m).done ≡ true)
        × (((fail_request protocol env w s m).msg m).error ≡ true)
  unfolding AreFirm
  fail_request-settles env w s m =
      let f = marked-firm env w s m m in (f.done (ground arith), f.error (ground arith))
