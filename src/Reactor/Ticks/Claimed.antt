-- ===== src/Reactor/Ticks/Claimed.antt =====
-- The start of a tick.
use rtsp_server.Prelude.{
  ℕ, suc, ◌+◌, ◌≤◌, ◌≡◌, ◌≢◌, refl, sym, ap, ◌∙◌, subst, ◌⊎◌, inl, inr, true, false, [], ◌∷◌, ◌++◌,
  List, some, ◌==◌, ==_iff, if◌then◌else◌, arith, Bool-cases, Option-cases,
}
use rtsp_server.Prelude.Numbers.{ℤ}
use rtsp_server.Session.State.{Session}
use rtsp_server.Reactor.{Task, Reactor, try_claim, claim, claim_all}
use rtsp_server.Reactor.Tables.{Table, get, put, get-put, get-put_other}
use rtsp_server.Reactor.Ticks.{count, InFlight, Fresh, Single, Kept}
use rtsp_server.Reactor.Ticks.Slots.{same_slot, same_heap}
use rtsp_server.Reactor.Ticks.Carried.{Carries-Kept, Kept-trans}

count-append : (id : ℕ) (ts us : List Task) → count id (ts ++ us) ≡ count id ts + count id us
unfolding count
count-append id [] us = omega arith
count-append id (t ∷ ts) us = ground (arith, count-append id ts us)

pub count-first : (t : Task) (ts : List Task) → count t.session (t ∷ ts) ≡ suc (count t.session ts)
unfolding count
count-first t ts = ground arith

pub count-first_other :
    (id : ℕ) (t : Task) (ts : List Task) → id ≢ t.session → count id (t ∷ ts) ≡ count id ts
unfolding count
count-first_other id t ts n = ground arith

module _ {M D : Type 0} where
  -- The reactor after a claim that succeeds.
  claimed : ℤ → ℕ → Session M D → Reactor M D → Reactor M D
  claimed now i s r = record r {
    heap = put i (record s { pacer_in_flight = true }) r.heap;
    tasks = r.tasks ++ record { session = i; now = now } ∷ [];
  }

  claimed-InFlight :
      (now : ℤ) (i j : ℕ) (s : Session M D) (r : Reactor M D)
      → j ≢ i
      → InFlight j r.heap
      → InFlight j (claimed now i s r).heap
  unfolding claimed InFlight
  claimed-InFlight now i j s r n (u, v, w) = (u, get-put_other j i _ r.heap n ∙ v, w)

  claimed-count_other :
      (now : ℤ) (i j : ℕ) (s : Session M D) (r : Reactor M D)
      → j ≢ i
      → count j (claimed now i s r).tasks ≡ count j r.tasks
  unfolding claimed count
  claimed-count_other now i j s r n =
      ground (arith, count-append j r.tasks (record { session = i; now = now } ∷ []))

  claimed-count :
      (now : ℤ) (i : ℕ) (s : Session M D) (r : Reactor M D)
      → count i (claimed now i s r).tasks ≡ suc (count i r.tasks)
  unfolding claimed count
  claimed-count now i s r =
      ground (arith, count-append i r.tasks (record { session = i; now = now } ∷ []))

  not-InFlight :
      (i : ℕ) (s : Session M D) (heap : Table (Session M D))
      → get i heap ≡ some s
      → s.pacer_in_flight ≡ false
      → InFlight i heap
      → ⊥
  unfolding InFlight
  not-InFlight i s heap e n (u, v, w) = ground (arith, same_slot i s u heap e v w, n)

  claimed-fresh :
      (now : ℤ) (i : ℕ) (s : Session M D) (r : Reactor M D)
      → Fresh r
      → get i r.heap ≡ some s
      → Fresh (claimed now i s r)
  unfolding claimed Fresh
  claimed-fresh now i s r f e j l =
      get-put_other j i _ r.heap (λ q. ground (arith, f i (subst (λ x. r.next ≤ x) q l), e)) ∙ f j l

  claimed-taken :
      (now : ℤ) (i : ℕ) (s : Session M D) (r : Reactor M D) → InFlight i (claimed now i s r).heap
  unfolding claimed InFlight
  claimed-taken now i s r = (record s { pacer_in_flight = true }, get-put i _ r.heap, refl)

  claimed-single :
      (now : ℤ) (i j : ℕ) (s : Session M D) (r : Reactor M D)
      → j ≡ i
      → (InFlight i r.heap → ⊥)
      → (count i r.tasks ≡ 0) ⊎ ((count i r.tasks ≡ 1) × InFlight i r.heap)
      → (count j (claimed now i s r).tasks ≡ 0)
        ⊎ ((count j (claimed now i s r).tasks ≡ 1) × InFlight j (claimed now i s r).heap)
  claimed-single now i j s r q free (inl z) =
      subst
        (λ x.
          (count x (claimed now i s r).tasks ≡ 0)
          ⊎ ((count x (claimed now i s r).tasks ≡ 1) × InFlight x (claimed now i s r).heap))
        (sym q) (inr (claimed-count now i s r ∙ ap suc z, claimed-taken now i s r))
  claimed-single now i j s r q free (inr (z, k)) = absurd (free k)

  claimed-Kept :
      (now : ℤ) (i id : ℕ) (s : Session M D) (r : Reactor M D)
      → Fresh r
      → get i r.heap ≡ some s
      → s.pacer_in_flight ≡ false
      → Kept id r (claimed now i s r)
  unfolding Fresh Single
  claimed-Kept now i id s r f e n =
      let free : InFlight i r.heap → ⊥ = not-InFlight i s r.heap e n in
      record {
        fresh = λ j l. claimed-fresh now i s r f e j l;
        single = λ v j. elim (Bool-cases (j == i)) [
          | inl h ↦ claimed-single now i j s r ((==_iff j i).0 h) free (v i)
          | inr h ↦
              let other : j ≢ i = λ q. ground (arith, q, h) in
              elim (v j) [
                | inl z ↦ inl (claimed-count_other now i j s r other ∙ z)
                | inr (z, k) ↦ inr (
                  claimed-count_other now i j s r other ∙ z,
                  claimed-InFlight now i j s r other k,
                )
              ]
        ];
        lost = λ v.
            let other : id ≢ i = λ q. free (subst (λ x. InFlight x r.heap) q v.taken) in
            record {
              untasked = claimed-count_other now i id s r other ∙ v.untasked;
              taken = claimed-InFlight now i id s r other v.taken;
            };
      }

  claim-Kept : (now : ℤ) (i id : ℕ) (r : Reactor M D) → Fresh r → Kept id r (claim now i r)
  unfolding claim try_claim claimed
  claim-Kept now i id r f =
      let unchanged = Carries-Kept id r r (same_heap r r f refl refl refl) in
      elim (Option-cases (get i r.heap)) [
        | inl e ↦ rw (e, claim) unchanged
        | inr (s, e) ↦ elim (Bool-cases s.pacer_in_flight) [
          | inl h ↦ rw (e, h, claim) unchanged
          | inr h ↦ rw (e, claim) (rw (h, if◌then◌else◌) (claimed-Kept now i id s r f e h))
        ]
      ]

  pub claim_all-Kept :
      (now : ℤ) (ss : List (ℕ × ℕ)) (id : ℕ) (r : Reactor M D)
      → Fresh r
      → Kept id r (claim_all now ss r)
  unfolding claim_all
  claim_all-Kept now [] id r f = Carries-Kept id r r (same_heap r r f refl refl refl)
  claim_all-Kept now ((fd, i) ∷ ss) id r f =
      let a = claim-Kept now i id r f in
      Kept-trans id r _ _ a (claim_all-Kept now ss id (claim now i r) a.fresh)
