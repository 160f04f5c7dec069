-- ===== src/Fragment/Placed.antt =====
-- The loop over the keys of a division.
use wx_cache_proxy.Base.{
  ℕ, suc, ◌<◌, ◌≡◌, refl, sym, ap, subst, ◌∙◌, Bool, true, List, [], ◌∷◌, ◌++◌, map, Option, none,
  some, ltb, arith, All, Status, nc_ok, nc_error, nc_enomem,
}
use mathlib.Core.List.{append_assoc, append-nil}
use wx_cache_proxy.Buffer.Message.{Message}
use wx_cache_proxy.Fragment.{
  Sub, blank_sub, Division, one_more, and_then, sub_or, put_in, put_key, put_keys,
}
use wx_cache_proxy.Fragment.Keys.{keys_at, Holds, HoldsAll, put_in-HoldsAll}

pub and_then-ok :
    {A B : Type 0} (x : Status × A) (f : A → Status × B) (b : B)
    → x.0 ≡ nc_ok
    → and_then x f b ≡ f x.1
and_then-ok (nc_ok, a) f b e = refl
and_then-ok (nc_error, a) f b e = cc
and_then-ok (nc_enomem, a) f b e = cc

module _ (backend : List ℕ → ℕ) (Carries : List (List ℕ) → Sub → Type 0) where
  -- One more key has been put into its fragment.
  pub record Placed (keys : List (List ℕ)) (seq : List ℕ) (d : Division) (r : Status × Division)
      : Type 0 where
    pub ok : r.0 ≡ nc_ok
    pub holds : HoldsAll backend Carries keys r.1.subs
    pub sequence : r.1.frag_seq ≡ seq
    pub numbered : r.1.frag_id ≡ d.frag_id
    pub counted : r.1.nfrag ≡ d.nfrag
    pub queued : r.1.queue ≡ d.queue
    pub inside : r.1.overrun ≡ d.overrun

module _ (ncontinuum : ℕ) (messages : ℕ → Bool) (backend : List ℕ → ℕ)
    (put : ℕ → List ℕ → Message → Sub → Status × Sub × Message) (IsGood : List ℕ → Type 0)
    (Carries : List (List ℕ) → Sub → Type 0) (memory : (i : ℕ) → messages i ≡ true)
    (nothing : Carries [] blank_sub)
    (put-Carries : (i : ℕ) (key : List ℕ) (request : Message) (keys : List (List ℕ)) (sub : Sub)
      → IsGood key
      → Carries keys sub
      → let done = put i key request (record sub { narg = one_more sub.narg }) in
        (done.0 ≡ nc_ok) × Carries (keys ++ key ∷ []) done.1) where
  sub_or-Carries :
      (keys : List (List ℕ)) (b : Bool) (o : Option Sub)
      → b ≡ true
      → Holds backend Carries keys o
      → (sub : Sub) × (sub_or b o ≡ some sub) × Carries keys sub
  unfolding sub_or
  sub_or-Carries keys b none e h =
      (blank_sub, rw (sub_or, e) refl, subst (λ k. Carries k blank_sub) (sym h) nothing)
  sub_or-Carries keys b (some sub) e h = (sub, refl, h.0)

  put_key-Placed :
      (i : ℕ) (key : List ℕ) (keys : List (List ℕ)) (d : Division)
      → IsGood key
      → backend key < ncontinuum
      → HoldsAll backend Carries keys d.subs
      → Placed backend Carries
          (keys ++ key ∷ [])
          (d.frag_seq ++ backend key ∷ [])
          d
          (put_key ncontinuum messages backend put i key d)
  unfolding put_key put_in
  put_key-Placed i key keys d good lt h =
      let t : ltb (backend key) ncontinuum ≡ true = ground arith in
      let (sub, e, c) =
        sub_or-Carries (keys_at backend (backend key) keys) (messages i) (d.subs (backend key))
          (memory i) (h (backend key)) in
      let added = put-Carries i key d.request (keys_at backend (backend key) keys) sub good c in
      rw (put_key, t, e)
        (record {
          ok = added.0;
          holds = put_in-HoldsAll backend Carries key keys _ d.subs h added.1;
          sequence = refl;
          numbered = refl;
          counted = refl;
          queued = refl;
          inside = refl;
        })

  pub put_keys-Placed :
      (i : ℕ) (more keys : List (List ℕ)) (d : Division)
      → All IsGood more
      → All (λ key. backend key < ncontinuum) more
      → HoldsAll backend Carries keys d.subs
      → Placed backend Carries
          (keys ++ more)
          (d.frag_seq ++ map backend more)
          d
          (put_keys ncontinuum messages backend put i more d)
  unfolding put_keys
  put_keys-Placed i [] keys d good lts h =
      rw (append-nil keys, append-nil d.frag_seq)
        (record {
          ok = refl;
          holds = h;
          sequence = refl;
          numbered = refl;
          counted = refl;
          queued = refl;
          inside = refl;
        })
  put_keys-Placed i (key ∷ more) keys d good lts h =
      let one = put_key-Placed i key keys d good.0 lts.0 h in
      let rest =
        put_keys-Placed (suc i) more (keys ++ key ∷ [])
          (put_key ncontinuum messages backend put i key d).1 good.1 lts.1 one.holds in
      rw
        (and_then-ok (put_key ncontinuum messages backend put i key d)
          (λ d'. put_keys ncontinuum messages backend put (suc i) more d')
          (put_key ncontinuum messages backend put i key d).1 one.ok)
        (record {
          ok = rest.ok;
          holds =
              subst
                (λ k.
                  HoldsAll backend Carries k
                    (put_keys ncontinuum messages backend put (suc i) more
                      (put_key ncontinuum messages backend put i key d).1).1.subs)
                (append_assoc keys (key ∷ []) more) rest.holds;
          sequence =
              rest.sequence
              ∙ ap (λ l. l ++ map backend more) one.sequence
              ∙ append_assoc d.frag_seq (backend key ∷ []) (map backend more);
          numbered = rest.numbered ∙ one.numbered;
          counted = rest.counted ∙ one.counted;
          queued = rest.queued ∙ one.queued;
          inside = rest.inside ∙ one.inside;
        })
