-- ===== src/State/Atomic/Laws.antt =====
-- WriteFileAtomic and WriteFileJSON: the target after each outcome.
use gobot.Prelude.{
  ◌≡◌, ◌≢◌, refl, ap, ◌∙◌, arith, ◌⊎◌, inl, inr, Bool-cases, Bool, false, Option, none, some,
  String,
}
use gobot.State.Types.{Err, Result, ok, err}
use gobot.State.Atomic.{Call, Slot, clean_up, write_file_atomic, write_file_json}
use Prim.Native.String.{◌++◌}

-- Every call but the deferred os.Remove.
abbrev pub NoneFails : (Call → Bool) → Type 0
NoneFails fails = (c : Call) → c ≢ Call.remove → fails c ≡ false

none_fails :
    (fails : Call → Bool)
    → fails Call.mkdir_all ≡ false
    → fails Call.create_temp ≡ false
    → fails Call.write ≡ false
    → fails Call.chmod ≡ false
    → fails Call.sync ≡ false
    → fails Call.close ≡ false
    → fails Call.rename ≡ false
    → NoneFails fails
none_fails fails n0 n1 n2 n3 n4 n5 n6 Call.mkdir_all ne = n0
none_fails fails n0 n1 n2 n3 n4 n5 n6 Call.create_temp ne = n1
none_fails fails n0 n1 n2 n3 n4 n5 n6 Call.write ne = n2
none_fails fails n0 n1 n2 n3 n4 n5 n6 Call.chmod ne = n3
none_fails fails n0 n1 n2 n3 n4 n5 n6 Call.sync ne = n4
none_fails fails n0 n1 n2 n3 n4 n5 n6 Call.close ne = n5
none_fails fails n0 n1 n2 n3 n4 n5 n6 Call.rename ne = n6
none_fails fails n0 n1 n2 n3 n4 n5 n6 Call.remove ne = absurd (ne refl)

-- The deferred os.Remove leaves the target, and takes the temporary file unless it fails.
cleaned :
    (fails : Call → Bool) (s : Slot)
    → ((clean_up fails s).target ≡ s.target)
      × (fails Call.remove ≡ false → (clean_up fails s).temp ≡ none)
unfolding clean_up
cleaned fails s = elim (Bool-cases (fails Call.remove)) [
  | inl f ↦ (rw (clean_up, f) refl, λ works. absurd (ground arith))
  | inr n ↦ (rw (clean_up, n) refl, λ works. rw (clean_up, n) refl)
]

pub whole_slot :
    (fails : Call → Bool) (text : String)
    → clean_up fails (record { target = some text; temp = none })
      ≡ record { target = some text; temp = none }
unfolding clean_up
whole_slot fails text = elim (Bool-cases (fails Call.remove)) [
  | inl f ↦ rw (clean_up, f) refl
  | inr n ↦ rw (clean_up, n) refl
]

-- The write is done with no temporary file left, or it failed, with the target as it was and the
-- temporary file left only by a failing os.Remove.
abbrev pub IsWhole : (Call → Bool) → String → Option String → Result (Unit {0}) × Slot → Type 0
IsWhole fails text old out =
    ((out.0 ≡ ok tt) × (out.1 ≡ record { target = some text; temp = none }) × NoneFails fails)
    ⊎ ((e : Err) × (out.0 ≡ err e)
        × (out.1.target ≡ old)
        × (fails Call.remove ≡ false → out.1.temp ≡ none))

failed-IsWhole :
    (fails : Call → Bool) (text : String) (old : Option String) (e : Err) (s : Slot)
    → s.target ≡ old
    → IsWhole fails text old (err e, clean_up fails s)
failed-IsWhole fails text old e s same =
    let (target, temp) = cleaned fails s in inr (e, refl, target ∙ same, temp)

-- Either every call but the deferred os.Remove succeeded, the target holds exactly the new text and
-- no temporary file is left, or an error is returned, the target is what it was, and a temporary
-- file is left only where the deferred os.Remove fails.
pub write-all_or_nothing :
    (fails : Call → Bool) (part text : String) (old : Option String)
    → IsWhole fails text old
        (write_file_atomic fails part text (record { target = old; temp = none }))
unfolding write_file_atomic
write-all_or_nothing fails part text old = elim (Bool-cases (fails Call.mkdir_all)) [
  | inl f ↦ rw f (inr (_, refl, refl, λ works. refl))
  | inr n0 ↦ elim (Bool-cases (fails Call.create_temp)) [
    | inl f ↦ rw (n0, f) (inr (_, refl, refl, λ works. refl))
    | inr n1 ↦ elim (Bool-cases (fails Call.write)) [
      | inl f ↦ rw (n0, n1, f) (failed-IsWhole fails text old _ _ refl)
      | inr n2 ↦ elim (Bool-cases (fails Call.chmod)) [
        | inl f ↦ rw (n0, n1, n2, f) (failed-IsWhole fails text old _ _ refl)
        | inr n3 ↦ elim (Bool-cases (fails Call.sync)) [
          | inl f ↦ rw (n0, n1, n2, n3, f) (failed-IsWhole fails text old _ _ refl)
          | inr n4 ↦ elim (Bool-cases (fails Call.close)) [
            | inl f ↦ rw (n0, n1, n2, n3, n4, f) (failed-IsWhole fails text old _ _ refl)
            | inr n5 ↦ elim (Bool-cases (fails Call.rename)) [
              | inl f ↦ rw (n0, n1, n2, n3, n4, n5, f) (failed-IsWhole fails text old _ _ refl)
              | inr n6 ↦
                  rw (n0, n1, n2, n3, n4, n5, n6)
                    (inl (refl, whole_slot fails text, none_fails fails n0 n1 n2 n3 n4 n5 n6))
            ]
          ]
        ]
      ]
    ]
  ]
]

-- The same for an encoded value.
pub write_json-cases :
    (fails : Call → Bool) (part : String) (encoded old : Option String)
    → let out = write_file_json fails part encoded (record { target = old; temp = none }) in
      ((text : String) × (encoded ≡ some text)
        × (out.0 ≡ ok tt)
        × (out.1.target ≡ some (text ++ "\n")))
      ⊎ ((e : Err) × (out.0 ≡ err e) × (out.1.target ≡ old))
unfolding write_file_json
write_json-cases fails part none old = inr (_, refl, refl)
write_json-cases fails part (some text) old =
    elim (write-all_or_nothing fails part (text ++ "\n") old) [
      | inl (r, t, _) ↦ inl (text, refl, r, ap (λ s. s.target) t)
      | inr (e, r, t, _) ↦ inr (e, r, t)
    ]

-- With no failing call but the deferred os.Remove the write succeeds.
pub write_json-ok :
    (fails : Call → Bool) (part text : String) (old : Option String)
    → NoneFails fails
    → write_file_json fails part (some text) (record { target = old; temp = none })
      ≡ (ok tt, record { target = some (text ++ "\n"); temp = none })
unfolding write_file_json write_file_atomic
write_json-ok fails part text old h =
    let n0 = h Call.mkdir_all (λ e. absurd (ground arith)) in
    let n1 = h Call.create_temp (λ e. absurd (ground arith)) in
    let n2 = h Call.write (λ e. absurd (ground arith)) in
    let n3 = h Call.chmod (λ e. absurd (ground arith)) in
    let n4 = h Call.sync (λ e. absurd (ground arith)) in
    let n5 = h Call.close (λ e. absurd (ground arith)) in
    let n6 = h Call.rename (λ e. absurd (ground arith)) in
    rw (n0, n1, n2, n3, n4, n5, n6, whole_slot fails (text ++ "\n")) refl
