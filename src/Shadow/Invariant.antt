-- ===== src/Shadow/Invariant.antt =====
-- What holds of every record, whatever the interleaving.
use x402_health_oracle.Prelude.{
  ℕ, suc, ◌+◌, ◌≤◌, ◌<◌, ◌≡◌, ◌↔◌, refl, Bool, true, false, some, List, [], ◌∷◌, arith, String,
  Text, string_Eq, length, get_elem?, ◌==◌, if◌then◌else◌, Option-cases, Bool-cases, inl, inr,
  length-append,
}
use x402_health_oracle.Prelude.Dict.{get}
use x402_health_oracle.Double.{Double}
use x402_health_oracle.Classifier.{ClassificationInput, classify_agent}
use x402_health_oracle.Shadow.{
  ShadowRecord, ShadowState, throttle_after, modify, fresh_record, current, find_record,
  count_request, is_throttled, admit, handle, is_bot_hit, take_out, judge, run_callback,
  clear_shadow_records, is_shadow_exempt,
}
use x402_health_oracle.Shadow.Steps.{Step, request, callback, clear, Reach, here, after}
use x402_health_oracle.Shadow.Heap.{
  count, get_elem?-modify, length-modify, get_elem?-append, count-take_out, current-lt,
}

-- A record with n callbacks still to come.
abbrev pub RecordOk : ℕ → ShadowRecord → Type 0
RecordOk n r =
    (r.bot_hits + n ≤ r.requests) × ((r.throttled ≡ true) ↔ (throttle_after ≤ r.bot_hits))

pub record IsValid (s : ShadowState) : Type 0 where
  pub records_ok :
      (i : ℕ) (r : ShadowRecord) → get_elem? s.heap i ≡ some r → RecordOk (count i s.pending) r
  pub pending_on_heap : (i : ℕ) → length s.heap ≤ i → count i s.pending ≡ 0

find_record-IsValid :
    (s : ShadowState) (ip : String) (now : ℕ)
    → IsValid s
    → let (s', i) = find_record s ip now in IsValid s' × (i < length s'.heap)
unfolding find_record
find_record-IsValid s ip now v = elim (Option-cases (current now s.heap (get ip s.records))) [
  | inl none_there ↦
      rw (none_there, find_record)
        (
          record {
            records_ok = λ j r e. ground (
              arith,
              get_elem?-append (fresh_record now) s.heap j,
              v.records_ok j r,
              v.pending_on_heap (length s.heap) (omega arith),
            );
            pending_on_heap = λ j h.
                v.pending_on_heap j (omega (arith, length-append s.heap (fresh_record now ∷ [])));
          },
          omega (arith, length-append s.heap (fresh_record now ∷ [])),
        )
  | inr (i, found) ↦ rw (found, find_record) (v, current-lt now s.heap (get ip s.records) found)
]

-- A counted request leaves room for one more callback of its record.
room :
    (s : ShadowState) (i now j : ℕ) (r : ShadowRecord)
    → IsValid s
    → get_elem? (modify i (count_request now) s.heap) j ≡ some r
    → RecordOk ((if i == j then 1 else 0) + count j s.pending) r
room s i now j r v e = elim (Option-cases (get_elem? s.heap j)) [
  | inl nothing ↦ ground (arith, get_elem?-modify (count_request now) i j s.heap)
  | inr (old, there) ↦
      ground (arith, get_elem?-modify (count_request now) i j s.heap, v.records_ok j old there)
]

fewer : {m n : ℕ} (r : ShadowRecord) → m ≤ n → RecordOk n r → RecordOk m r
fewer r h (few, t) = (omega arith, t)

admit-IsValid :
    (s : ShadowState) (i now : ℕ) → IsValid s → i < length s.heap → IsValid (admit s i now).0
unfolding admit
admit-IsValid s i now v h =
    elim (Bool-cases (is_throttled (get_elem? (modify i (count_request now) s.heap) i))) [
      | inl stopped ↦
          rw (stopped, admit)
            (record {
              records_ok = λ j r e. fewer r (ground arith) (room s i now j r v e);
              pending_on_heap = λ j le.
                  v.pending_on_heap j (omega (arith, length-modify (count_request now) i s.heap));
            })
      | inr passed ↦
          rw (passed, admit)
            (record {
              records_ok = λ j r e. room s i now j r v e;
              pending_on_heap = λ j le. ground (
                arith,
                v.pending_on_heap j (omega (arith, length-modify (count_request now) i s.heap)),
                length-modify (count_request now) i s.heap,
              );
            })
    ]

judge_ok {ℓ} :
    {W : Type ℓ} ⦃d : Double W⦄ (input : ClassificationInput W) (n : ℕ) (r : ShadowRecord)
    → RecordOk (suc n) r
    → RecordOk n (judge input r)
unfolding judge
judge_ok {W = W} input n r ok = elim (Bool-cases (is_bot_hit W (classify_agent input))) [
  | inl hit ↦ rw (hit, judge) (ground arith)
  | inr no_hit ↦ rw (no_hit, judge) (ground arith)
]

judged_if {ℓ} :
    {W : Type ℓ} ⦃d : Double W⦄ (input : ClassificationInput W) (n : ℕ) (old r : ShadowRecord)
    (b : Bool)
    → (if b then some (judge input old) else some old) ≡ some r
    → RecordOk ((if b then 1 else 0) + n) old
    → RecordOk n r
judged_if input n old r true e ok =
    ground (arith, judge_ok input n old (fewer old (omega arith) ok))
judged_if input n old r false e ok = ground arith

run_callback-IsValid {ℓ} :
    {W : Type ℓ} ⦃d : Double W⦄ (s : ShadowState) (k : ℕ) (input : ClassificationInput W)
    → IsValid s
    → IsValid (run_callback s k input)
unfolding run_callback
run_callback-IsValid s k input v = elim (Option-cases (take_out k s.pending)) [
  | inl nothing ↦ rw (nothing, run_callback) v
  | inr ((i, rest), found) ↦
      rw (found, run_callback)
        (record {
          records_ok = λ j r e. judged i rest j r found e;
          pending_on_heap = λ j le. ground (
            arith,
            v.pending_on_heap j (omega (arith, length-modify (judge input) i s.heap)),
            count-take_out j k s.pending found,
          );
        })
]
  where
    judged :
        (i : ℕ) (rest : List ℕ) (j : ℕ) (r : ShadowRecord)
        → take_out k s.pending ≡ some (i, rest)
        → get_elem? (modify i (judge input) s.heap) j ≡ some r
        → RecordOk (count j rest) r
    judged i rest j r found e = elim (Option-cases (get_elem? s.heap j)) [
      | inl nothing ↦ ground (arith, get_elem?-modify (judge input) i j s.heap)
      | inr (old, there) ↦
          judged_if input (count j rest) old r (i == j)
            (ground (arith, get_elem?-modify (judge input) i j s.heap))
            (ground (arith, v.records_ok j old there, count-take_out j k s.pending found))
    ]

handle-IsValid :
    (s : ShadowState) (path : Text) (ip : String) (now : ℕ)
    → IsValid s
    → IsValid (handle s path ip now).0
unfolding handle
handle-IsValid s path ip now v = elim (Bool-cases (is_shadow_exempt path)) [
  | inl exempt ↦ rw (exempt, handle) v
  | inr checked ↦
      rw (checked, handle)
        (let (found-IsValid, found-lt) = find_record-IsValid s ip now v in
          admit-IsValid (find_record s ip now).0 (find_record s ip now).1 now found-IsValid
            found-lt)
]

Step-IsValid {ℓ} :
    {W : Type ℓ} ⦃d : Double W⦄ {s t : ShadowState} → Step W s t → IsValid s → IsValid t
unfolding clear_shadow_records
Step-IsValid (request s path ip now) v = handle-IsValid s path ip now v
Step-IsValid (callback s k input) v = run_callback-IsValid s k input v
Step-IsValid (clear s) v = record { records_ok = v.records_ok; pending_on_heap = v.pending_on_heap }

Reach-IsValid {ℓ} : {W : Type ℓ} ⦃d : Double W⦄ {s : ShadowState} → Reach W s → IsValid s
Reach-IsValid here = record { records_ok = λ i r e. ground arith; pending_on_heap = λ i le. refl }
Reach-IsValid (after run step) = Step-IsValid step (Reach-IsValid run)

-- In every state that requests, background classifications in any order and resets lead to, a
-- record that the map or a waiting callback holds is throttled exactly if it has five bot hits or
-- more, and its bot hits and the classifications still to come together are at most its requests.
pub throttled_iff {ℓ} :
    {W : Type ℓ} ⦃d : Double W⦄ {s : ShadowState} (run : Reach W s) (i : ℕ) (r : ShadowRecord)
    → get_elem? s.heap i ≡ some r
    → (r.bot_hits + count i s.pending ≤ r.requests)
      × ((r.throttled ≡ true) ↔ (throttle_after ≤ r.bot_hits))
throttled_iff run i r e = (Reach-IsValid run).records_ok i r e
