-- ===== src/JsMap.antt =====
-- JavaScript's `Map`: entries in insertion order; `set` on a present key keeps its place.
use contestscore.Prelude.{
  ◌≡◌, ◌∙◌, refl, sym, ◌⊎◌, inl, inr, List, [], ◌∷◌, Option, none, some, arith, Eq, In, Distinct,
  Bool-cases, true, false, if◌then◌else◌,
}

abbrev pub JsMap {ℓ κ} : Type ℓ → Type κ → Type (ℓ ⊔ κ)
JsMap K V = List (K × V)

module _ {V : Type 0} {K : Type 0} ⦃e : Eq K⦄ where
  -- m.get(k)
  unfoldable pub get : K → JsMap K V → Option V
  get k [] = none
  get k ((j, v) ∷ m) = if e.beq j k then some v else get k m

  -- m.set(k, v)
  unfoldable pub put : K → V → JsMap K V → JsMap K V
  put k v [] = (k, v) ∷ []
  put k v ((j, w) ∷ m) = if e.beq j k then (j, v) ∷ m else (j, w) ∷ put k v m

  -- [...m.keys()]
  abbrev pub keys : JsMap K V → List K
  keys [] = []
  keys ((j, w) ∷ m) = j ∷ keys m

  pub get-put :
      (k j : K) (v : V) (m : JsMap K V)
      → get j (put k v m) ≡ (if e.beq k j then some v else get j m)
  unfolding get put
  get-put k j v [] = refl
  get-put k j v ((i, w) ∷ m) =
      ground (arith, e.beq_iff k j, e.beq_iff i k, e.beq_iff i j, get-put k j v m)

  pub get-put_self : (k : K) (v : V) (m : JsMap K V) → get k (put k v m) ≡ some v
  get-put_self k v m = ground (arith, get-put k k v m, e.beq_iff k k)

  pub get-put_eq : (k j : K) (v : V) (m : JsMap K V) → e.beq k j ≡ true → get j (put k v m) ≡ some v
  get-put_eq k j v m h = ground (arith, get-put k j v m)

  pub get-put_ne :
      (k j : K) (v : V) (m : JsMap K V) → e.beq k j ≡ false → get j (put k v m) ≡ get j m
  get-put_ne k j v m h = ground (arith, get-put k j v m)

  pub In-keys-put :
      (k j : K) (v : V) (m : JsMap K V) → In j (keys (put k v m)) → (j ≡ k) ⊎ In j (keys m)
  unfolding put
  In-keys-put k j v [] h = h
  In-keys-put k j v ((i, w) ∷ m) h = elim (Bool-cases (e.beq i k)) [
    | inl same ↦ inr (rw same at h)
    | inr other ↦ elim (let h' : In j (i ∷ keys (put k v m)) = rw other at h in h') [
      | inl p ↦ inr (inl p)
      | inr p ↦ elim (In-keys-put k j v m p) [ inl q ↦ inl q | inr q ↦ inr (inr q) ]
    ]
  ]

  pub In-keys-put_of :
      (k j : K) (v : V) (m : JsMap K V) → (j ≡ k) ⊎ In j (keys m) → In j (keys (put k v m))
  unfolding put
  In-keys-put_of k j v [] h = h
  In-keys-put_of k j v ((i, w) ∷ m) h = elim (Bool-cases (e.beq i k)) [
    | inl same ↦ rw same (elim h [ inl p ↦ inl (p ∙ sym ((e.beq_iff i k).0 same)) | inr p ↦ p ])
    | inr other ↦ rw other (elim h [
      | inl p ↦ inr (In-keys-put_of k j v m (inl p))
      | inr (inl p) ↦ inl p
      | inr (inr p) ↦ inr (In-keys-put_of k j v m (inr p))
    ])
  ]

  pub Distinct-keys-put :
      (k : K) (v : V) (m : JsMap K V) → Distinct (keys m) → Distinct (keys (put k v m))
  unfolding put
  Distinct-keys-put k v [] d = (λ h. h, tt)
  Distinct-keys-put k v ((i, w) ∷ m) d = elim (Bool-cases (e.beq i k)) [
    | inl same ↦ rw same d
    | inr other ↦ rw other (
      λ h. elim (In-keys-put k i v m h) [
        | inl q ↦ absurd (ground (arith, e.beq_iff i k))
        | inr q ↦ d.0 q
      ],
      Distinct-keys-put k v m d.1,
    )
  ]
