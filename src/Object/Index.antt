-- ===== src/Object/Index.antt =====
-- The XArray of kernel/src/virtusb_object_manager.c with its indices in order.
use virt_usb.Prelude.{
  ℕ, suc, ◌≡◌, ◌<◌, ◌≤◌, arith, refl, none, some, List, [], ◌∷◌, ◌==◌, ltb, if◌then◌else◌, length,
  Bool-cases, inl, inr,
}
use virt_usb.Object.Store.{xa_load, xa_store, xa_erase}

-- All indices are above `n`, in increasing order.
abbrev pub Above : ℕ → List (ℕ × ℕ) → Type 0
Above n [] = Unit
Above n ((i, e) ∷ rest) = (n < i) × Above i rest

pub Above-mono : (m n : ℕ) (r : List (ℕ × ℕ)) → m ≤ n → Above n r → Above m r
Above-mono m n [] h a = tt
Above-mono m n ((i, e) ∷ rest) h a = (omega (arith, a.0), a.1)

pub Above-load : (n j : ℕ) (r : List (ℕ × ℕ)) → Above n r → j ≤ n → xa_load r j ≡ none
unfolding xa_load
Above-load n j [] a h = refl
Above-load n j ((i, e) ∷ rest) a h =
    ground (arith, a.0, Above-load i j rest a.1 (omega (arith, a.0)))

pub Above-store : (n i e : ℕ) (r : List (ℕ × ℕ)) → n < i → Above n r → Above n (xa_store r i e)
unfolding xa_store
Above-store n i e [] h a = (h, tt)
Above-store n i e ((k, f) ∷ rest) h a = elim (Bool-cases (ltb i k)) [
  | inl lt ↦ rw (lt, xa_store) (h, (ground (arith, lt), a.1))
  | inr ge ↦ elim (Bool-cases (k == i)) [
    | inl eq ↦ rw (ge, eq, xa_store) a
    | inr ne ↦ rw (ge, ne, xa_store) (a.0, Above-store k i e rest (ground (arith, ge, ne)) a.1)
  ]
]

pub Above-erase : (n i : ℕ) (r : List (ℕ × ℕ)) → Above n r → Above n (xa_erase r i)
unfolding xa_erase
Above-erase n i [] a = tt
Above-erase n i ((k, f) ∷ rest) a = elim (Bool-cases (k == i)) [
  | inl eq ↦ rw (eq, xa_erase) (Above-mono n k rest (omega (arith, a.0)) a.1)
  | inr ne ↦ rw (ne, xa_erase) (a.0, Above-erase k i rest a.1)
]

pub xa_load-xa_erase :
    (n i j : ℕ) (r : List (ℕ × ℕ))
    → Above n r
    → xa_load (xa_erase r i) j ≡ (if j == i then none else xa_load r j)
unfolding xa_load xa_erase
xa_load-xa_erase n i j [] a = ground arith
xa_load-xa_erase n i j ((k, f) ∷ rest) a =
    ground (arith, a.0, xa_load-xa_erase k i j rest a.1, above_below k j rest a.1)
  where
    above_below : (k j : ℕ) (rest : List (ℕ × ℕ)) → Above k rest → k ≡ j → xa_load rest j ≡ none
    above_below k j rest a h = Above-load k j rest a (omega arith)

pub length-xa_erase :
    (i o : ℕ) (r : List (ℕ × ℕ)) → xa_load r i ≡ some o → suc (length (xa_erase r i)) ≡ length r
unfolding xa_load xa_erase
length-xa_erase i o [] e = absurd (ground arith)
length-xa_erase i o ((k, f) ∷ rest) e = elim (Bool-cases (k == i)) [
  | inl eq ↦ ground (arith, eq)
  | inr ne ↦ ground (arith, ne, length-xa_erase i o rest (ground (arith, ne, e)))
]
