-- ===== src/Skiplist/Half/Candidate.antt =====
-- Which queue has the candidate of the row that is split.
use tythread.Base.{
  ℕ, suc, ◌+◌, ◌-◌, ◌/◌, ◌*◌, ◌%◌, ◌≤◌, ◌<◌, ◌≡◌, refl, sym, ◌∙◌, ◌⊎◌, ◌≢◌, arith, Ptr, null,
  eq_cases, inl, inr, leb, ltb, Bool-cases,
}
use tythread.Skiplist.{Layer, skip_gap}
use tythread.Skiplist.Half.{Upper, upper_cleanuped, single_node_preserved, normal, hand_candidate}
use tythread.Skiplist.Row.{Row, cand_of}

-- How many of the n nodes of a row go.
abbrev pub half_of : Layer → ℕ
half_of r = (r.tail_off - r.head_off + 1) / 2

-- Where the row is cut.
abbrev pub mid_of : Layer → ℕ
mid_of r = r.head_off + half_of r

-- The candidates behind the split are where the two rows want them.
pub record IsHanded (f : ℕ → Ptr) (r : Layer) (mine theirs : Layer) : Type 0 where
  pub stays : mine.candidate ≡ cand_of f (mid_of r) r.tail_off
  pub goes : theirs.candidate ≡ cand_of f r.head_off (mid_of r)

cand_none :
    (f : ℕ → Ptr) (h t : ℕ)
    → (t % skip_gap ≢ 0 → t / skip_gap * skip_gap < h)
    → cand_of f h t ≡ null
cand_none f h t gone = elim (eq_cases (t % skip_gap) 0) [
  | inl (_, e) ↦ ground (arith, e)
  | inr (_, ne) ↦ ground (arith, gone ne)
]

cand_some :
    (f : ℕ → Ptr) (h t q : ℕ)
    → t % skip_gap ≢ 0
    → h ≤ q
    → q ≡ t / skip_gap * skip_gap
    → cand_of f h t ≡ f q
cand_some f h t q ne le e = ground arith

module _ {f : ℕ → Ptr} {next : Ptr → Ptr} {r : Layer} (row : Row f next r) (theirs : Layer)
    (down : Ptr) where
  abbrev handed : Upper → Layer × Layer
  handed u = hand_candidate u down r theirs (half_of r)

  pub handed-rest :
      (u : Upper)
      → ((handed u).0 ≡ record r { candidate = (handed u).0.candidate })
        × ((handed u).1 ≡ record theirs { candidate = (handed u).1.candidate })
  unfolding hand_candidate
  handed-rest upper_cleanuped = (refl, refl)
  handed-rest single_node_preserved = (refl, refl)
  handed-rest normal = ground arith

  module _ (fresh : theirs.candidate ≡ null) where
    -- No group is full.
    pub normal-IsHanded :
        r.tail_off / skip_gap ≤ (r.head_off + (skip_gap - 1)) / skip_gap
        → IsHanded f r (handed normal).0 (handed normal).1
    unfolding hand_candidate
    normal-IsHanded none_full = elim (eq_cases (r.tail_off % skip_gap) 0) [
      | inl (e, aligned) ↦ rw e record {
        stays =
            row.waits
            ∙ cand_none f r.head_off r.tail_off (λ ne. absurd (ne aligned))
            ∙ sym (cand_none f (mid_of r) r.tail_off (λ ne. absurd (ne aligned)));
        goes = fresh ∙ sym (cand_none f r.head_off (mid_of r) (λ ne. omega arith));
      }
      | inr (e, inside) ↦ rw e (
          let p = r.tail_off - r.tail_off % skip_gap in
          let start : p ≡ r.tail_off / skip_gap * skip_gap = omega arith in
          elim (Bool-cases (leb r.head_off p)) [
            | inr gone ↦ rw gone (
                let out : p < r.head_off = ground arith in
                record {
                  stays =
                      row.waits
                      ∙ cand_none f r.head_off r.tail_off (λ _. omega arith)
                      ∙ sym (cand_none f (mid_of r) r.tail_off (λ _. omega arith));
                  goes = fresh ∙ sym (cand_none f r.head_off (mid_of r) (λ ne. omega arith));
                })
            | inl here ↦
                (let le : r.head_off ≤ p = ground arith in
                  let is = row.waits ∙ cand_some f r.head_off r.tail_off p inside le start in
                  rw here (elim (Bool-cases (ltb p (r.head_off + half_of r))) [
                    | inl stolen ↦ rw stolen (
                        let lt : p < mid_of r = ground arith in
                        record {
                          stays = sym (cand_none f (mid_of r) r.tail_off (λ _. omega arith));
                          goes =
                              is
                              ∙ sym (
                                  cand_some f r.head_off (mid_of r) p (omega arith) le
                                    (omega arith));
                        })
                    | inr kept ↦ rw kept (
                        let ge : mid_of r ≤ p = ground arith in
                        record {
                          stays = is ∙ sym (cand_some f (mid_of r) r.tail_off p inside ge start);
                          goes =
                              fresh ∙ sym (cand_none f r.head_off (mid_of r) (λ ne. omega arith));
                        })
                  ]))
          ])
    ]

    -- One group is full, and is not to go whole.
    pub cleaned-IsHanded :
        r.tail_off / skip_gap ≡ suc ((r.head_off + (skip_gap - 1)) / skip_gap)
        → (r.head_off % skip_gap ≢ 0) ⊎ (r.tail_off ≢ r.head_off + (2 * skip_gap - 1))
        → down ≡ f ((r.head_off + (skip_gap - 1)) / skip_gap * skip_gap)
        → IsHanded f r (handed upper_cleanuped).0 (handed upper_cleanuped).1
    unfolding hand_candidate
    cleaned-IsHanded one not_whole start = record {
      stays = elim (eq_cases (r.tail_off % skip_gap) 0) [
        | inl (_, e) ↦
            row.waits
            ∙ cand_none f r.head_off r.tail_off (λ ne. absurd (ne e))
            ∙ sym (cand_none f (mid_of r) r.tail_off (λ ne. absurd (ne e)))
        | inr (_, ne) ↦
            row.waits
            ∙ cand_some f r.head_off r.tail_off (r.tail_off / skip_gap * skip_gap) ne (omega arith)
                refl
            ∙ sym (
                cand_some f (mid_of r) r.tail_off (r.tail_off / skip_gap * skip_gap) ne
                  (omega arith) refl)
      ];
      goes =
          start
          ∙ sym (cand_some f r.head_off (mid_of r) _ (omega arith) (omega arith) (omega arith));
    }

    -- One group is full, and goes whole.
    pub preserved-IsHanded :
        r.head_off % skip_gap ≡ 0
        → r.tail_off ≡ r.head_off + (2 * skip_gap - 1)
        → IsHanded f r (handed single_node_preserved).0 (handed single_node_preserved).1
    unfolding hand_candidate
    preserved-IsHanded starts long = record {
      stays = ground (arith, row.waits);
      goes = ground (arith, fresh);
    }
