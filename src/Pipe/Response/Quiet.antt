-- ===== src/Pipe/Response/Quiet.antt =====
-- nc_response.c and nc_request.c: steps and the queues of a server connection.
use wx_cache_proxy.Base.{
  ℕ, ◌≡◌, refl, ap, ◌∙◌, ◌∷◌, Option, true, arith, Bool-cases, Option-cases, inl, inr,
}
use wx_cache_proxy.Pipe.State.{World, first}
use wx_cache_proxy.Pipe.Queue.{msg_put, rsp_put, drop_peer, msg_tmo_delete, req_put}
use wx_cache_proxy.Pipe.Done.{mark_fdone, siblings}
use wx_cache_proxy.Pipe.Done.Runs.{req_done-cases, mark_fdone-noreply}
use wx_cache_proxy.Pipe.Request.{Protocol, Env, req_done, wake_client, client_out}

-- Nothing changes in the queues of `s` nor in the requests' flag `noreply`.
pub record IsQuiet (s : ℕ) (w w' : World) : Type 0 where
  pub sent : (w'.link s).omsg_q ≡ (w.link s).omsg_q
  pub unsent : (w'.link s).imsg_q ≡ (w.link s).imsg_q
  pub flags : (j : ℕ) → (w'.msg j).noreply ≡ (w.msg j).noreply

-- The protocol's handlers leave the queues of `s` and the flag `noreply` alone.
pub record AreQuiet (s : ℕ) (protocol : Protocol) : Type 0 where
  pub pre : (w : World) (r : ℕ) → IsQuiet s w (protocol.pre_coalesce w r)
  pub post : (w : World) (o : Option ℕ) → IsQuiet s w (protocol.post_coalesce w o)
  pub swallow : (w : World) (t m r : ℕ) → IsQuiet s w (protocol.swallow_msg w t m r)

pub IsQuiet-trans : (s : ℕ) (a b c : World) → IsQuiet s a b → IsQuiet s b c → IsQuiet s a c
IsQuiet-trans s a b c x y = record {
  sent = y.sent ∙ x.sent;
  unsent = y.unsent ∙ x.unsent;
  flags = λ j. y.flags j ∙ x.flags j;
}

pub IsQuiet-refl : (s : ℕ) (w : World) → IsQuiet s w w
IsQuiet-refl s w = record { sent = refl; unsent = refl; flags = λ j. refl }

-- A change of messages that spares the flag, and of anything but the connections to servers.
pub IsQuiet-msg :
    (s : ℕ) (w w' : World)
    → w'.link ≡ w.link
    → ((j : ℕ) → (w'.msg j).noreply ≡ (w.msg j).noreply)
    → IsQuiet s w w'
IsQuiet-msg s w w' e h = record {
  sent = ap (λ l. (l s).omsg_q) e;
  unsent = ap (λ l. (l s).imsg_q) e;
  flags = h;
}

msg_tmo_delete-IsQuiet : (s : ℕ) (w : World) (m : ℕ) → IsQuiet s w (msg_tmo_delete w m)
unfolding msg_tmo_delete
msg_tmo_delete-IsQuiet s w m = IsQuiet-msg s w _ refl (λ j. ground arith)

pub rsp_put-IsQuiet : (s : ℕ) (w : World) (m : ℕ) → IsQuiet s w (rsp_put w m)
unfolding rsp_put msg_put
rsp_put-IsQuiet s w m = IsQuiet-msg s w (rsp_put w m) refl (λ j. refl)

drop_peer-link : (w : World) (m : ℕ) → (drop_peer w m).link ≡ w.link
unfolding drop_peer rsp_put msg_put
drop_peer-link w m = ground arith

drop_peer-noreply : (w : World) (m j : ℕ) → ((drop_peer w m).msg j).noreply ≡ (w.msg j).noreply
unfolding drop_peer rsp_put msg_put
drop_peer-noreply w m j = ground arith

pub req_put-IsQuiet : (s : ℕ) (w : World) (m : ℕ) → IsQuiet s w (req_put w m)
unfolding req_put msg_put msg_tmo_delete
req_put-IsQuiet s w m =
    IsQuiet-msg s w (req_put w m) (drop_peer-link w m)
      (λ j. let e = drop_peer-noreply w m j in ground arith)

module _ (s : ℕ) (protocol : Protocol) (q : AreQuiet s protocol) where
  pub req_done-IsQuiet : (w : World) (c m : ℕ) → IsQuiet s w (req_done protocol w c m).1
  unfolding req_done
  req_done-IsQuiet w c m =
      let queue = (w.client c).omsg_q in
      let marked : World = record w { msg = mark_fdone w.msg (m ∷ siblings w.msg m queue) } in
      elim (req_done-cases protocol.post_coalesce w queue m) [
        | inl e ↦ rw e (IsQuiet-refl s w)
        | inr e ↦ rw e (
            IsQuiet-trans s w marked _
              (IsQuiet-msg s w marked refl (mark_fdone-noreply w.msg (m ∷ siblings w.msg m queue)))
              (q.post marked (w.msg m).frag_owner))
      ]

  client_out-IsQuiet : (env : Env) (w : World) (c : ℕ) → IsQuiet s w (client_out env w c)
  unfolding client_out
  client_out-IsQuiet env w c = elim (Bool-cases env.client_event) [
    | inl e ↦ rw e (IsQuiet-msg s w _ refl (λ j. refl))
    | inr e ↦ rw e (IsQuiet-msg s w _ refl (λ j. refl))
  ]

  pub wake_client-IsQuiet :
      (env : Env) (w : World) (c : ℕ) → IsQuiet s w (wake_client protocol env w c)
  unfolding wake_client
  wake_client-IsQuiet env w c = elim (Option-cases (first (w.client c).omsg_q)) [
    | inl e ↦ rw (wake_client, e) (IsQuiet-msg s w (record w { crashed = true }) refl (λ j. refl))
    | inr (m, e) ↦
        let w1 = (req_done protocol w c m).1 in
        elim (Bool-cases (req_done protocol w c m).0) [
          | inl t ↦
              rw (wake_client, e, t)
                (IsQuiet-trans s w w1 _ (req_done-IsQuiet w c m) (client_out-IsQuiet env w1 c))
          | inr f ↦ rw (wake_client, e, f) (req_done-IsQuiet w c m)
        ]
  ]
