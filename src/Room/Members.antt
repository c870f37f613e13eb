-- ===== src/Room/Members.antt =====
-- The set of members.
use csf_hw.Prelude.{ℕ, ◌≤◌, ◌<◌, ◌≡◌, refl, false, not, ◌&&◌, ◌||◌, List, [], ◌∷◌, arith, ◌==◌}
use csf_hw.Room.{Room, set_insert, set_erase, set_has, add_member, remove_member, member_exists}

-- Increasing from a bound on.
abbrev pub Above : ℕ → List ℕ → Type 0
Above n [] = Unit
Above n (x ∷ xs) = (n < x) × Above x xs

abbrev pub IsOrdered : List ℕ → Type 0
IsOrdered [] = Unit
IsOrdered (x ∷ xs) = Above x xs

pub Above-le : (m n : ℕ) (xs : List ℕ) → m ≤ n → Above n xs → Above m xs
Above-le m n [] h a = tt
Above-le m n (x ∷ xs) h a = (omega arith, a.1)

pub set_has-below : (v n : ℕ) (xs : List ℕ) → v ≤ n → Above n xs → set_has v xs ≡ false
unfolding set_has
set_has-below v n [] h a = refl
set_has-below v n (x ∷ xs) h a = ground (arith, set_has-below v x xs)

pub set_insert-Above : (n u : ℕ) (xs : List ℕ) → n < u → Above n xs → Above n (set_insert u xs)
unfolding set_insert
set_insert-Above n u [] h a = (h, tt)
set_insert-Above n u (x ∷ xs) h a = ground (arith, set_insert-Above x u xs)

pub set_insert-IsOrdered : (u : ℕ) (xs : List ℕ) → IsOrdered xs → IsOrdered (set_insert u xs)
unfolding set_insert
set_insert-IsOrdered u [] a = tt
set_insert-IsOrdered u (x ∷ xs) a = ground (arith, set_insert-Above x u xs)

pub set_erase-Above : (n u : ℕ) (xs : List ℕ) → Above n xs → Above n (set_erase u xs)
unfolding set_erase
set_erase-Above n u [] a = tt
set_erase-Above n u (x ∷ xs) a = ground (arith, set_erase-Above x u xs, Above-le n x xs)

pub set_erase-IsOrdered : (u : ℕ) (xs : List ℕ) → IsOrdered xs → IsOrdered (set_erase u xs)
unfolding set_erase
set_erase-IsOrdered u [] a = tt
set_erase-IsOrdered u (x ∷ []) a = ground arith
set_erase-IsOrdered u (x ∷ y ∷ xs) a = ground (arith, set_erase-Above x u (y ∷ xs))

pub set_has-insert :
    (v u : ℕ) (xs : List ℕ) → set_has v (set_insert u xs) ≡ (u == v || set_has v xs)
unfolding set_insert set_has
set_has-insert v u [] = refl
set_has-insert v u (x ∷ xs) = ground (arith, set_has-insert v u xs)

pub set_has-erase :
    (v u : ℕ) (xs : List ℕ)
    → IsOrdered xs
    → set_has v (set_erase u xs) ≡ (not (u == v) && set_has v xs)
unfolding set_erase set_has
set_has-erase v u [] a = ground arith
set_has-erase v u (x ∷ []) a = ground arith
set_has-erase v u (x ∷ y ∷ xs) a =
    ground (arith, set_has-erase v u (y ∷ xs) a.1, set_has-below v x (y ∷ xs))

-- After `add_member` exactly the old members and the new one exist; after `remove_member`, exactly
-- the old ones but that one; and the set stays ordered.
pub record Membership (user : ℕ) (room : Room) : Type 0 where
  pub added : (v : ℕ) → member_exists v (add_member user room) ≡ (user == v || member_exists v room)
  pub removed :
      (v : ℕ)
      → member_exists v (remove_member user room) ≡ (not (user == v) && member_exists v room)
  pub added_ordered : IsOrdered (add_member user room).members
  pub removed_ordered : IsOrdered (remove_member user room).members

-- In a room whose members are ordered, `add_member` makes exactly the user a member besides the old
-- members, `remove_member` takes exactly the user away, as `member_exists` reports it, and both
-- keep the members ordered.
pub Membership_lem : (user : ℕ) (room : Room) → IsOrdered room.members → Membership user room
unfolding add_member remove_member member_exists
Membership_lem user room o = record {
  added = λ v. set_has-insert v user room.members;
  removed = λ v. set_has-erase v user room.members o;
  added_ordered = set_insert-IsOrdered user room.members o;
  removed_ordered = set_erase-IsOrdered user room.members o;
}

pub Above-IsOrdered : (n : ℕ) (xs : List ℕ) → Above n xs → IsOrdered xs
Above-IsOrdered n [] a = tt
Above-IsOrdered n (x ∷ xs) a = a.1

-- Every member is a user.
abbrev pub AllBelow : ℕ → List ℕ → Type 0
AllBelow n [] = Unit
AllBelow n (x ∷ xs) = (x < n) × AllBelow n xs

pub AllBelow-mono : (m n : ℕ) (xs : List ℕ) → m ≤ n → AllBelow m xs → AllBelow n xs
AllBelow-mono m n [] h a = tt
AllBelow-mono m n (x ∷ xs) h a = (omega arith, AllBelow-mono m n xs h a.1)

pub set_has_above : (n v : ℕ) (xs : List ℕ) → n ≤ v → AllBelow n xs → set_has v xs ≡ false
unfolding set_has
set_has_above n v [] h b = refl
set_has_above n v (x ∷ xs) h b = ground (arith, set_has_above n v xs h b.1)

pub set_insert-AllBelow :
    (n u : ℕ) (xs : List ℕ) → u < n → AllBelow n xs → AllBelow n (set_insert u xs)
unfolding set_insert
set_insert-AllBelow n u [] h a = (h, tt)
set_insert-AllBelow n u (x ∷ xs) h a = ground (arith, set_insert-AllBelow n u xs)

pub set_erase-AllBelow : (n u : ℕ) (xs : List ℕ) → AllBelow n xs → AllBelow n (set_erase u xs)
unfolding set_erase
set_erase-AllBelow n u [] a = tt
set_erase-AllBelow n u (x ∷ xs) a = ground (arith, set_erase-AllBelow n u xs)
