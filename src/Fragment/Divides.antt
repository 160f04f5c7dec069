-- ===== src/Fragment/Divides.antt =====
-- What a division gives: each key in the fragment of its server, in the order of the keys.
use wx_cache_proxy.Base.{
  ℕ, zero, suc, ◌+◌, ◌%◌, ◌^◌, ◌<◌, ◌≡◌, ◌≢◌, refl, sym, ap, subst, ◌∙◌, Bool, true, false, List,
  [], ◌∷◌, ◌++◌, map, none, some, length, length-append, All, All-append, arith, Option-cases, inl,
  inr, Status, nc_ok,
}
use mathlib.Core.List.{append_assoc, append-nil}
use wx_cache_proxy.Buffer.Message.{Message}
use wx_cache_proxy.Buffer.Content.{content}
use wx_cache_proxy.Parser.Kind.{MsgType}
use wx_cache_proxy.Fragment.{
  Sub, blank_sub, Division, one_more, put_keys, enqueue, queue_subs, divide,
}
use wx_cache_proxy.Fragment.Keys.{keys_at, Holds, HoldsAll, fragments, framed_or}
use wx_cache_proxy.Fragment.Placed.{and_then-ok, put_keys-Placed}

abbrev pub text : Sub → List ℕ
text sub = content sub.message.mhdr

map-append_one :
    {A B : Type 0} (f : A → B) (xs : List A) (x : A) → map f (xs ++ x ∷ []) ≡ map f xs ++ f x ∷ []
map-append_one f [] x = refl
map-append_one f (y ∷ xs) x = ap (◌∷◌ (f y)) (map-append_one f xs x)

-- The outcome: all went well, the fragments are those of the keys, each marked as the request is, and
-- `frag_seq` says for each key where it went.
pub record Divides (backend : List ℕ → ℕ) (framed : List (List ℕ) → List ℕ) (kind : MsgType)
    (counter ncontinuum : ℕ) (keys : List (List ℕ)) (result : Status × Division) : Type 0 where
  pub ok : result.0 ≡ nc_ok
  pub texts : map text result.1.queue ≡ fragments backend framed ncontinuum 0 keys
  pub marked :
      All (λ sub. (sub.kind ≡ kind) × (sub.frag_id ≡ (counter + 1) % 2 ^ 64)) result.1.queue
  pub numbered : result.1.frag_id ≡ (counter + 1) % 2 ^ 64
  pub counted : result.1.nfrag ≡ length result.1.queue % 2 ^ 32
  pub sequence : result.1.frag_seq ≡ map backend keys
  pub inside : result.1.overrun ≡ false

module _ (messages : ℕ → Bool) (backend : List ℕ → ℕ)
    (put : ℕ → List ℕ → Message → Sub → Status × Sub × Message) (finish : ℕ → Sub → Status × Sub)
    (IsGood : List ℕ → Type 0) (Carries : List (List ℕ) → Sub → Type 0)
    (framed : List (List ℕ) → List ℕ) (memory : (i : ℕ) → messages i ≡ true)
    (nothing : Carries [] blank_sub)
    (put-Carries : (i : ℕ) (key : List ℕ) (request : Message) (keys : List (List ℕ)) (sub : Sub)
      → IsGood key
      → Carries keys sub
      → let done = put i key request (record sub { narg = one_more sub.narg }) in
        (done.0 ≡ nc_ok) × Carries (keys ++ key ∷ []) done.1)
    (finish-framed : (i : ℕ) (key : List ℕ) (keys : List (List ℕ)) (sub : Sub)
      → Carries (key ∷ keys) sub
      → ((finish i sub).0 ≡ nc_ok) × (text (finish i sub).1 ≡ framed (key ∷ keys))) where
  module _ (kind : MsgType) where
    abbrev IsMarked : ℕ → Sub → Type 0
    IsMarked n sub = (sub.kind ≡ kind) × (sub.frag_id ≡ n)

    -- The queue has come to hold these texts too.
    record Queued (texts : List (List ℕ)) (d : Division) (r : Status × Division) : Type 0 where
      ok : r.0 ≡ nc_ok
      texts_eq : map text r.1.queue ≡ map text d.queue ++ texts
      marked : All (IsMarked d.frag_id) r.1.queue
      numbered : r.1.frag_id ≡ d.frag_id
      counted : r.1.nfrag ≡ length r.1.queue % 2 ^ 32
      sequence : r.1.frag_seq ≡ d.frag_seq
      inside : r.1.overrun ≡ d.overrun

    finish-framed_or :
        (i : ℕ) (keys rest : List (List ℕ)) (sub : Sub)
        → Carries keys sub
        → keys ≢ []
        → ((finish i sub).0 ≡ nc_ok) × (framed_or framed keys rest ≡ text (finish i sub).1 ∷ rest)
    finish-framed_or i [] rest sub c full = absurd (full refl)
    finish-framed_or i (key ∷ keys) rest sub c full =
        let f = finish-framed i key keys sub c in (f.0, ap (λ t. t ∷ rest) (sym f.1))

    queue_subs-Queued :
        (n i : ℕ) (keys : List (List ℕ)) (d : Division)
        → HoldsAll backend Carries keys d.subs
        → All (IsMarked d.frag_id) d.queue
        → d.nfrag ≡ length d.queue % 2 ^ 32
        → Queued (fragments backend framed n i keys) d (queue_subs kind finish n i d)
    unfolding queue_subs fragments enqueue
    queue_subs-Queued zero i keys d h marks count = record {
      ok = refl;
      texts_eq = sym (append-nil (map text d.queue));
      marked = marks;
      numbered = refl;
      counted = count;
      sequence = refl;
      inside = refl;
    }
    queue_subs-Queued (suc n) i keys d h marks count = elim (Option-cases (d.subs i)) [
      | inl e ↦
          let none_here : keys_at backend i keys ≡ [] =
            subst (Holds backend Carries (keys_at backend i keys)) e (h i) in
          rw (queue_subs, fragments, e, none_here)
            (queue_subs-Queued n (suc i) keys d h marks count)
      | inr (sub, e) ↦
          let here : Holds backend Carries (keys_at backend i keys) (some sub) =
            subst (Holds backend Carries (keys_at backend i keys)) e (h i) in
          let later = fragments backend framed n (suc i) keys in
          let f = finish-framed_or i (keys_at backend i keys) later sub here.0 here.1 in
          let sub' : Sub = record (finish i sub).1 { kind = kind; frag_id = d.frag_id } in
          let rest =
            queue_subs-Queued n (suc i) keys (enqueue kind finish d (finish i sub).1) h
              (All-append (IsMarked d.frag_id) d.queue (sub' ∷ []) marks ((refl, refl), tt))
              (omega (arith, count, length-append d.queue (sub' ∷ []))) in
          rw
            (
              queue_subs,
              e,
              and_then-ok (finish i sub)
                  (λ x. queue_subs kind finish n (suc i) (enqueue kind finish d x)) d f.0,
            )
            (record {
              ok = rest.ok;
              texts_eq =
                  rest.texts_eq
                  ∙ ap (λ l. l ++ later) (map-append_one text d.queue sub')
                  ∙ append_assoc (map text d.queue) (text sub' ∷ []) later
                  ∙ ap (◌++◌ (map text d.queue)) (sym f.1);
              marked = rest.marked;
              numbered = rest.numbered;
              counted = rest.counted;
              sequence = rest.sequence;
              inside = rest.inside;
            })
    ]

    pub divide-Divides :
        (eat : Message → Message) (counter ncontinuum : ℕ) (keys : List (List ℕ)) (d : Division)
        → All IsGood keys
        → All (λ key. backend key < ncontinuum) keys
        → d.frag_seq ≡ []
        → d.queue ≡ []
        → Divides backend framed kind counter ncontinuum keys
            (divide true messages backend put finish eat kind counter ncontinuum keys d)
    unfolding divide keys_at
    divide-Divides eat counter ncontinuum keys d good lts seq empty =
        let d1 = record d {
          request = eat d.request;
          subs = λ i. none;
          frag_id = (counter + 1) % 2 ^ 64;
          nfrag = 0;
          overrun = false;
        } in
        let placed =
          put_keys-Placed ncontinuum messages backend put IsGood Carries memory nothing put-Carries
            0 keys [] d1 good lts (λ i. refl) in
        let d2 = (put_keys ncontinuum messages backend put 0 keys d1).1 in
        let none_yet : d2.queue ≡ [] = placed.queued ∙ empty in
        let queued =
          queue_subs-Queued ncontinuum 0 keys d2 placed.holds
            (subst (All (IsMarked d2.frag_id)) (sym none_yet) tt)
            (omega (arith, placed.counted, ap length none_yet)) in
        rw
          (and_then-ok (put_keys ncontinuum messages backend put 0 keys d1)
            (queue_subs kind finish ncontinuum 0) d2 placed.ok)
          (record {
            ok = queued.ok;
            texts =
                queued.texts_eq
                ∙ ap (λ q. map text q ++ fragments backend framed ncontinuum 0 keys) none_yet;
            marked =
                subst (λ n. All (IsMarked n) (queue_subs kind finish ncontinuum 0 d2).1.queue)
                  placed.numbered queued.marked;
            numbered = queued.numbered ∙ placed.numbered;
            counted = queued.counted;
            sequence = queued.sequence ∙ placed.sequence ∙ ap (λ l. l ++ map backend keys) seq;
            inside = queued.inside ∙ placed.inside;
          })
