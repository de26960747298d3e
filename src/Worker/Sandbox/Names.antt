-- ===== src/Worker/Sandbox/Names.antt =====
-- The names of sandbox claims are labels of Kubernetes.
use langopen.Prelude.{
  ℕ, ◌≤◌, Bool, true, false, ◌&&◌, [], ◌∷◌, ◌++◌, length, take, keep, ltb, nat_eq, ◌≡◌, refl, arith,
  Bool-cases, inl, inr, All, All-take, All-keep, length-take-le,
}
use langopen.Prelude.Text.{Codes, codes, codes_eq, to_lower}
use langopen.Worker.Sandbox.{
  dashed, is_label, trim_left_dash, trim_right_dash, or_fresh, clean_id, sandbox_claim_name,
}

abbrev pub IsLabel : ℕ → Type 0
IsLabel c = is_label c ≡ true

abbrev pub ends_in_dash : Codes → Bool
ends_in_dash [] = false
ends_in_dash (c ∷ []) = nat_eq c b'-'
ends_in_dash (c ∷ d ∷ s) = ends_in_dash (d ∷ s)

trim_left-IsLabel : (s : Codes) → All IsLabel s → All IsLabel (trim_left_dash s)
unfolding trim_left_dash
trim_left-IsLabel [] h = tt
trim_left-IsLabel (c ∷ s) (k, h) = elim (Bool-cases (nat_eq c b'-')) [
  | inl e ↦ rw e (trim_left-IsLabel s h)
  | inr e ↦ rw e (k, h)
]

trim_right-IsLabel : (s : Codes) → All IsLabel s → All IsLabel (trim_right_dash s)
unfolding trim_right_dash
trim_right-IsLabel [] h = tt
trim_right-IsLabel (c ∷ s) (k, h) =
    elim (Bool-cases (codes_eq (trim_right_dash s) [] && nat_eq c b'-')) [
      | inl e ↦ rw e tt
      | inr e ↦ rw e (k, trim_right-IsLabel s h)
    ]

trim_right_le : (s : Codes) → length (trim_right_dash s) ≤ length s
unfolding trim_right_dash
trim_right_le [] = omega arith
trim_right_le (c ∷ s) = ground (arith, trim_right_le s)

no_dash_left : (s : Codes) → ends_in_dash (trim_right_dash s) ≡ false
unfolding trim_right_dash codes_eq
no_dash_left [] = refl
no_dash_left (c ∷ s) = ground (arith, no_dash_left s)

clean-IsLabel :
    (fresh run_id : Codes)
    → All IsLabel (dashed (to_lower fresh))
    → All IsLabel (clean_id fresh run_id)
unfolding clean_id
clean-IsLabel fresh run_id h = or_fresh-IsLabel fresh _ h (
    trim_right-IsLabel _ (
      trim_left-IsLabel (keep is_label (dashed (to_lower run_id)))
        (All-keep IsLabel is_label (λ c e. e) (dashed (to_lower run_id)))))
  where
    or_fresh-IsLabel :
        (fresh s : Codes)
        → All IsLabel (dashed (to_lower fresh))
        → All IsLabel s
        → All IsLabel (or_fresh fresh s)
    or_fresh-IsLabel fresh [] h k = h
    or_fresh-IsLabel fresh (c ∷ s) h k = k

fresh_end :
    (fresh s : Codes)
    → (c : ℕ) (t : Codes) → dashed (to_lower fresh) ≡ c ∷ t
    → ends_in_dash (c ∷ t) ≡ false
    → ends_in_dash s ≡ false
    → ends_in_dash (codes "run-" ++ or_fresh fresh s) ≡ false
fresh_end fresh [] c t shape h k = rw (shape, h) refl
fresh_end fresh (d ∷ s) c t shape h k = k

clean_end :
    (fresh run_id : Codes) (c : ℕ) (t : Codes)
    → dashed (to_lower fresh) ≡ c ∷ t
    → ends_in_dash (c ∷ t) ≡ false
    → ends_in_dash (codes "run-" ++ clean_id fresh run_id) ≡ false
unfolding clean_id
clean_end fresh run_id c t shape whole =
    fresh_end fresh (trim_right_dash (trim_left_dash (keep is_label (dashed (to_lower run_id))))) c
      t shape whole (no_dash_left (trim_left_dash (keep is_label (dashed (to_lower run_id)))))

-- The name of a sandbox claim has at most 63 characters, all of them small letters, digits or
-- dashes, and does not end in a dash, whatever the run's id is, if so does the new id (which is not
-- empty) once it is in small letters and dashes.
pub claim_name_valid :
    (fresh run_id : Codes) (c : ℕ) (t : Codes)
    → dashed (to_lower fresh) ≡ c ∷ t
    → All IsLabel (c ∷ t)
    → ends_in_dash (c ∷ t) ≡ false
    → (length (sandbox_claim_name fresh run_id) ≤ 63)
      × All IsLabel (sandbox_claim_name fresh run_id)
      × (ends_in_dash (sandbox_claim_name fresh run_id) ≡ false)
unfolding sandbox_claim_name
claim_name_valid fresh run_id c t shape labels whole =
    let name = codes "run-" ++ clean_id fresh run_id in
    let good : All IsLabel name =
      (refl, (refl, (refl, (refl, clean-IsLabel fresh run_id (rw shape labels))))) in
    elim (Bool-cases (ltb 63 (length name))) [
      | inl long ↦ rw long (
        omega (arith, trim_right_le (take 63 name), length-take-le 63 name),
        trim_right-IsLabel (take 63 name) (All-take IsLabel 63 name good),
        no_dash_left (take 63 name),
      )
      | inr short ↦ rw short (ground (arith, short), good, clean_end fresh run_id c t shape whole)
    ]
