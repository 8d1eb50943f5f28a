-- ===== src/Deps/Kahn/LeftOut.antt =====
-- The nodes that one drain leaves out (src/manager/deps.rs): those of the cycles and behind them.
use sysd.Prelude.{
  ℕ, zero, suc, ◌≤◌, ◌<◌, String, ◌≡◌, ◌≢◌, sym, ◌∙◌, ap, true, not, ◌&&◌, ◌⊎◌, List, [], ◌==◌,
  nat_eq, string_eq, contains, contains-keep, keep, length, length-le_of_subset, IsSetList, get,
  keys, arith, Bool-cases, Option-cases, inl, inr, eq_iff, List-cases,
}
use sysd.Deps.{Edges, deps_of}
use sysd.Deps.Kahn.Degrees.{IsEdges}
use sysd.Deps.Kahn.Order.{degrees, drained, degrees-keys, drained-IsSorting, drained_all, find_open}

-- The rank falls along each edge between the nodes, so that they have no cycle.
abbrev pub IsRanking : Edges → List String → (String → ℕ) → Type 0
IsRanking edges nodes rank =
    (n m : String)
    → contains nodes n ≡ true
    → contains nodes m ≡ true
    → contains (deps_of edges n) m ≡ true
    → rank m < rank n

ℕ-eq-cases : (a b : ℕ) → (a ≡ b) ⊎ (a ≢ b)
ℕ-eq-cases a b = elim (Bool-cases (a == b)) [
  | inl h ↦ inl (ground arith)
  | inr h ↦ inr (λ e. ground (arith, e))
]

module _ (edges : Edges) (nodes : List String) (proper : IsEdges edges)
    (set : IsSetList nodes) where
  -- The nodes that the drain leaves out.
  unfoldable pub left_out : List String
  left_out = keep (λ n. not (contains (drained edges nodes proper set).result n)) nodes

  pub result_in_nodes :
      (n : String)
      → contains (drained edges nodes proper set).result n ≡ true
      → contains nodes n ≡ true
  result_in_nodes n h =
      sym (degrees-keys edges nodes proper set n)
      ∙ (drained-IsSorting edges nodes proper set).inv.result_known n h

  pub length-result-le : length (drained edges nodes proper set).result ≤ length nodes
  length-result-le =
      length-le_of_subset (drained edges nodes proper set).result nodes
        (drained-IsSorting edges nodes proper set).inv.result_set result_in_nodes

  pub left_out_iff :
      (n : String)
      → contains left_out n
        ≡ (contains nodes n && not (contains (drained edges nodes proper set).result n))
  unfolding left_out
  left_out_iff n =
      contains-keep (λ n. not (contains (drained edges nodes proper set).result n)) nodes n

  pub left_out-nonempty :
      length (drained edges nodes proper set).result ≢ length nodes → left_out ≢ []
  left_out-nonempty short none_left = short (
      omega (
        arith,
        length-result-le,
        length-le_of_subset nodes (drained edges nodes proper set).result set all_in,
      ))
    where
      all_in :
          (n : String)
          → contains nodes n ≡ true
          → contains (drained edges nodes proper set).result n ≡ true
      all_in n h =
          unfold contains in ground (arith, left_out_iff n, ap (λ l. contains l n) none_left)

  pub left_out-blocked :
      (n : String)
      → contains left_out n ≡ true
      → (m : String) × (contains left_out m ≡ true) × (contains (deps_of edges n) m ≡ true)
  left_out-blocked n h = elim (Option-cases (get (drained edges nodes proper set).in_degree n)) [
    | inl gone ↦ absurd (
        ground (
          arith,
          left_out_iff n,
          degrees-keys edges nodes proper set n,
          (drained-IsSorting edges nodes proper set).inv.known n,
        ))
    | inr (degree, had) ↦
        let (m, dep, key, unmet) =
          find_open (keys (degrees edges nodes proper set)) (drained edges nodes proper set).result
            (deps_of edges n)
            λ closed. ground (
              arith,
              left_out_iff n,
              (drained-IsSorting edges nodes proper set).exact n degree had,
              (drained_all edges nodes proper set).zero_emitted n,
            ) in
        (m, ground (arith, left_out_iff m, degrees-keys edges nodes proper set m), dep)
  ]

  no_descent :
      (rank : String → ℕ)
      → IsRanking edges nodes rank
      → (k : ℕ) (n : String) → contains left_out n ≡ true
      → ¬ (rank n < k)
  no_descent rank down zero n h lt = omega (arith, lt)
  no_descent rank down (suc k) n h lt =
      let (m, m_left, dep) = left_out-blocked n h in
      let step : rank m < rank n =
        down n m (ground (arith, left_out_iff n)) (ground (arith, left_out_iff m)) dep in
      no_descent rank down k m m_left (omega (arith, lt, step))

  -- With no cycle the drain emits every node.
  pub all_drained :
      (rank : String → ℕ)
      → IsRanking edges nodes rank
      → length (drained edges nodes proper set).result ≡ length nodes
  all_drained rank down =
      elim (ℕ-eq-cases (length (drained edges nodes proper set).result) (length nodes)) [
        | inl same ↦ same
        | inr short ↦ elim (List-cases left_out) [
          | inl none_left ↦ absurd (left_out-nonempty short none_left)
          | inr (n, rest, e) ↦ absurd (
              no_descent rank down (suc (rank n)) n
                (rw e (unfold contains in ground (arith, eq_iff n n))) (omega arith))
        ]
      ]
