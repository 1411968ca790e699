-- ===== src/Lookup/Pending.antt =====
-- The set `pending` of src/lookup/index.js: what `add`, `delete` and the guard `has` do to it.
use contestscore.Lookup.Service.{has, add, delete, delete_all}
use contestscore.Prelude.{
  ◌≡◌, ◌≢◌, ◌↔◌, ◌⊎◌, refl, sym, inl, inr, true, false, List, [], ◌∷◌, In, In-append,
  In-append_left, In-append_right, Bool-cases, ◌∙◌,
}
use contestscore.Prelude.Text.{Text, text_eq, text_eq_iff}

pub has_iff : (c : Text) (s : List Text) → (has c s ≡ true) ↔ In c s
unfolding has
has_iff c [] = (λ h. cc, λ h. absurd h)
has_iff c (d ∷ s) = (
  λ h. elim (Bool-cases (text_eq d c)) [
    | inl e ↦ inl (sym ((text_eq_iff d c).0 e))
    | inr n ↦ inr ((has_iff c s).0 (rw n at h))
  ],
  λ h. elim h [
    | inl e ↦ rw ((text_eq_iff d c).1 (sym e)) refl
    | inr k ↦ elim (Bool-cases (text_eq d c)) [
      | inl e ↦ rw e refl
      | inr n ↦ rw n ((has_iff c s).1 k)
    ]
  ],
)

pub not-In_of_has : (c : Text) (s : List Text) → has c s ≡ false → ¬ In c s
not-In_of_has c s h m = cc ((has_iff c s).1 m)

pub In-add : (d c : Text) (s : List Text) → In d (add c s) ↔ ((d ≡ c) ⊎ In d s)
unfolding add
In-add d c s = elim (Bool-cases (has c s)) [
  | inl e ↦ rw e (λ h. inr h, λ h. elim h [ inl p ↦ rw p ((has_iff c s).0 e) | inr k ↦ k ])
  | inr e ↦ rw e (
    λ h. elim (In-append d s (c ∷ []) h) [
      | inl k ↦ inr k
      | inr (inl p) ↦ inl p
      | inr (inr k) ↦ absurd k
    ],
    λ h. elim h [
      | inl p ↦ In-append_right d s (c ∷ []) (inl p)
      | inr k ↦ In-append_left d s (c ∷ []) k
    ],
  )
]

pub In-delete : (d c : Text) (s : List Text) → In d (delete c s) ↔ ((d ≢ c) × In d s)
unfolding delete
In-delete d c [] = (λ h. absurd h, λ h. absurd h.1)
In-delete d c (e ∷ s) = elim (Bool-cases (text_eq e c)) [
  | inl same ↦ rw same (
    λ h. let k = (In-delete d c s).0 h in (k.0, inr k.1),
    λ h. elim h.1 [
      | inl p ↦ absurd (h.0 (p ∙ (text_eq_iff e c).0 same))
      | inr k ↦ (In-delete d c s).1 (h.0, k)
    ],
  )
  | inr other ↦ rw other (
    λ h. elim h [
      | inl p ↦ (λ q. cc ((text_eq_iff e c).1 (sym p ∙ q)), inl p)
      | inr k ↦ let r = (In-delete d c s).0 k in (r.0, inr r.1)
    ],
    λ h. elim h.1 [ inl p ↦ inl p | inr k ↦ inr ((In-delete d c s).1 (h.0, k)) ],
  )
]

pub In-delete_all : (d : Text) (cs s : List Text) → In d (delete_all cs s) ↔ ((¬ In d cs) × In d s)
unfolding delete_all
In-delete_all d [] s = (λ h. (λ k. k, h), λ h. h.1)
In-delete_all d (c ∷ cs) s = (
  λ h.
      let r = (In-delete_all d cs (delete c s)).0 h in
      let q = (In-delete d c s).0 r.1 in (λ k. elim k [ inl e ↦ q.0 e | inr m ↦ r.0 m ], q.1),
  λ h.
      (In-delete_all d cs (delete c s)).1
        (λ m. h.0 (inr m), (In-delete d c s).1 (λ e. h.0 (inl e), h.1)),
)
