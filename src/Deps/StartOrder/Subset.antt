-- ===== src/Deps/StartOrder/Subset.antt =====
-- About the loop of `toposort_subset` (src/manager/deps.rs).
use sysd.Prelude.{
  ℕ, zero, suc, ◌+◌, ◌*◌, ◌≤◌, ◌<◌, String, ◌≡◌, refl, sym, ◌∙◌, ap, true, false, ◌⊎◌, none, some,
  List, [], ◌++◌, ◌==◌, nat_eq, string_eq, contains, contains_of_length, length,
  length-le_of_subset, length-append, IsSetList, Map, get, get-insert, insert, insert-IsMap, IsMap,
  keys, contains-keys, leb, arith, Bool-cases, Option-cases, inl, inr, eq_iff,
}
use mathlib.Core.List.{append-nil, append_assoc}
use sysd.Deps.{Edges}
use sysd.Deps.Kahn.{Drain, kahn_drain}
use sysd.Deps.Kahn.Loop.{Drained, kahn_drain-Drained, Extends}
use sysd.Deps.Kahn.Again.{kahn_drain-IsMap, kahn_drain-progress}
use sysd.Deps.StartOrder.{break_cycle, next_round, subset_loop}
use sysd.Deps.StartOrder.Break.{break_cycle-some, break_cycle-none}

-- What the loop keeps between its rounds.
pub record IsRound (subset : List String) (in_degree : Map String ℕ) (result : List String)
    : Type 0 where
  pub map : IsMap in_degree
  pub set : IsSetList result
  pub known : (n : String) → contains result n ≡ true → contains (keys in_degree) n ≡ true
  pub over : (n : String) → contains (keys in_degree) n ≡ contains subset n

-- A node may be emitted at once.
abbrev Ready : Map String ℕ → List String → Type 0
Ready in_degree result = (n : String) × (get in_degree n ≡ some 0) × (contains result n ≡ false)

Extends-trans : (xs ys zs : List String) → Extends xs ys → Extends ys zs → Extends xs zs
Extends-trans xs ys zs (more, e) (also, f) =
    (more ++ also, f ∙ ap (λ l. l ++ also) e ∙ append_assoc xs more also)

module _ (edges : Edges) (proper : IsMap edges) (subset : List String)
    (unique : IsSetList subset) where
  module _ (in_degree : Map String ℕ) (result : List String)
      (w : IsRound subset in_degree result) where
    abbrev d : Drain
    d = kahn_drain edges in_degree result

    done : Drained in_degree result d
    done = kahn_drain-Drained edges in_degree result w.map w.set w.known

    drained-IsRound : IsRound subset d.in_degree d.result
    drained-IsRound = record {
      map = kahn_drain-IsMap edges in_degree result proper w.map w.set w.known;
      set = done.inv.result_set;
      known = λ n h.
          ground (arith, done.inv.result_known n h, done.inv.known n, contains-keys d.in_degree n);
      over = λ n. ground (arith, done.inv.known n, contains-keys d.in_degree n, w.over n);
    }

    result_in_subset : (n : String) → contains d.result n ≡ true → contains subset n ≡ true
    result_in_subset n h = ground (arith, done.inv.result_known n h, w.over n)

    length-grows : length result ≤ length d.result
    length-grows = omega (arith, ap length done.grows.1, length-append result done.grows.0)

    whole : length subset ≤ length d.result → (n : String) → contains d.result n ≡ contains subset n
    whole long n = ground (
      arith,
      result_in_subset n,
      contains_of_length d.result subset done.inv.result_set result_in_subset long n,
    )

    -- With no cycle to break, everything is emitted.
    unbroken : break_cycle d.in_degree d.result ≡ none → length subset ≤ length d.result
    unbroken h = length-le_of_subset subset d.result unique λ n m.
        elim (Option-cases (get d.in_degree n)) [
          | inl gone ↦ absurd (ground (arith, contains-keys d.in_degree n, drained-IsRound.over n))
          | inr (degree, had) ↦
              ground
                (arith, break_cycle-none d.in_degree d.result h n degree had, done.zero_emitted n)
        ]

    broken-IsRound :
        (broken : Map String ℕ)
        → break_cycle d.in_degree d.result ≡ some broken
        → IsRound subset broken d.result × Ready broken d.result
    broken-IsRound broken h =
        let (n, degree, (had, pos, fresh), e, least) =
          break_cycle-some d.in_degree d.result broken drained-IsRound.map h in
        rw e (
          record {
            map = insert-IsMap d.in_degree n 0 drained-IsRound.map;
            set = drained-IsRound.set;
            known = λ k r. ground (
              arith,
              drained-IsRound.known k r,
              contains-keys d.in_degree k,
              contains-keys (insert d.in_degree n 0) k,
              get-insert d.in_degree n k 0,
            );
            over = λ k. ground (
              arith,
              drained-IsRound.over k,
              contains-keys d.in_degree k,
              contains-keys (insert d.in_degree n 0) k,
              get-insert d.in_degree n k 0,
              eq_iff n k,
            );
          },
          (n, ground (arith, get-insert d.in_degree n n 0, eq_iff n n), fresh),
        )

    -- How a round ends: the subset is whole, or the round emitted a node, or it broke a cycle after
    -- it had emitted none.
    next_round-cases :
        (next_round subset d result ≡ none) × (length subset ≤ length d.result)
        ⊎ ((degrees : Map String ℕ) × (next_round subset d result ≡ some degrees)
            × IsRound subset degrees d.result
            × ((length result < length d.result)
                ⊎ (length d.result ≡ length result) × Ready degrees d.result))
    unfolding next_round
    next_round-cases = elim (Bool-cases (leb (length subset) (length d.result))) [
      | inl long ↦ inl (rw long refl, ground arith)
      | inr short ↦ elim (Bool-cases (length d.result == length result)) [
        | inr more ↦ inr (
          d.in_degree,
          rw (short, more) refl,
          drained-IsRound,
          inl (ground (arith, length-grows)),
        )
        | inl stuck ↦ elim (Option-cases (break_cycle d.in_degree d.result)) [
          | inl nothing ↦ absurd (ground (arith, unbroken nothing))
          | inr (broken, h) ↦
              let (round, ready) = broken-IsRound broken h in
              inr (broken, rw (short, stuck, h) refl, round, inr (ground arith, ready))
        ]
      ]
    ]

    Ready-progress : Ready in_degree result → length result < length d.result
    Ready-progress (n, zero_degree, fresh) =
        kahn_drain-progress edges in_degree result proper w.map w.set w.known n zero_degree fresh

  -- What the loop returns: the whole subset, once each, with the first round at its front.
  pub record IsWhole (first : List String) (order : List String) : Type 0 where
    pub set : IsSetList order
    pub whole : (n : String) → contains order n ≡ contains subset n
    pub grows : Extends first order

  pub subset_loop-total :
      (fuel : ℕ) (in_degree : Map String ℕ) (result : List String)
      → IsRound subset in_degree result
      → (2 * length subset + 2 ≤ fuel + 2 * length result)
        ⊎ (2 * length subset + 1 ≤ fuel + 2 * length result) × Ready in_degree result
      → (order : List String) × (subset_loop fuel edges subset in_degree result ≡ some order)
        × IsWhole (kahn_drain edges in_degree result).result order
  unfolding subset_loop
  subset_loop-total zero in_degree result w enough = absurd (
      ground (
        arith,
        length-le_of_subset result subset w.set λ n h. ground (arith, w.known n h, w.over n),
      ))
  subset_loop-total (suc fuel) in_degree result w enough =
      elim (next_round-cases in_degree result w) [
        | inl (end, long) ↦ (
          (kahn_drain edges in_degree result).result,
          rw (end, subset_loop) refl,
          record {
            set = (done in_degree result w).inv.result_set;
            whole = whole in_degree result w long;
            grows = ([], sym (append-nil (kahn_drain edges in_degree result).result));
          },
        )
        | inr (degrees, go_on, round, step) ↦
            let r = (kahn_drain edges in_degree result).result in
            let enough' : (2 * length subset + 2 ≤ fuel + 2 * length r)
                ⊎ (2 * length subset + 1 ≤ fuel + 2 * length r) × Ready degrees r =
              elim enough [
                | inl e ↦ elim step [
                  | inl more ↦ inl (omega (arith, e, more))
                  | inr (same, ready) ↦ inr (omega (arith, e, same), ready)
                ]
                | inr (e, ready) ↦ elim step [
                  | inl more ↦ inl (omega (arith, e, more))
                  | inr (same, again) ↦
                      absurd (omega (arith, Ready-progress in_degree result w ready, same))
                ]
              ] in
            let (order, e, o) = subset_loop-total fuel degrees r round enough' in
            (
              order,
              rw (go_on, subset_loop) e,
              record {
                set = o.set;
                whole = o.whole;
                grows =
                    Extends-trans r (kahn_drain edges degrees r).result order
                      (done degrees r round).grows o.grows;
              },
            )
      ]
