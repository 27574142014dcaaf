-- ===== src/Chat/Composer/Wire.antt =====
-- The syncs on their way: which of them are live, and what aborting and firing leave of them.
use meadow_ops.Base.{
  ℕ, suc, ◌+◌, ◌≡◌, refl, ap, ◌∙◌, Bool, true, false, ◌||◌, ◌&&◌, Option, none, some, List, [], ◌∷◌,
  ◌++◌, nat_eq, if◌then◌else◌, arith,
}
use meadow_ops.Draft.{WebStorage}
use meadow_ops.Chat.Composer.{Sync, InFlight, Composer, abort, fire_sync}

-- Requests on their way that were not aborted.
unfoldable pub live : List InFlight → ℕ
live [] = 0
live (x ∷ xs) = let rest = live xs in if x.aborted then rest else suc rest

-- The syncs that these requests carry.
unfoldable pub live_syncs : List InFlight → List Sync
live_syncs [] = []
live_syncs (x ∷ xs) = let rest = live_syncs xs in if x.aborted then rest else x.sync ∷ rest

-- Every live request carries the signal of the current controller.
unfoldable pub current : Option ℕ → List InFlight → Bool
current c [] = true
current none (x ∷ xs) = x.aborted && current none xs
current (some c) (x ∷ xs) = (x.aborted || nat_eq x.controller c) && current (some c) xs

-- Aborting the current controller leaves no live request.
pub live-abort : (c : Option ℕ) (xs : List InFlight) → current c xs ≡ true → live (abort c xs) ≡ 0
unfolding live abort current
live-abort none [] h = refl
live-abort (some c) [] h = refl
live-abort none (x ∷ xs) h = ground (arith, live-abort none xs)
live-abort (some c) (x ∷ xs) h = ground (arith, live-abort (some c) xs)

pub live_syncs-abort :
    (c : Option ℕ) (xs : List InFlight) → current c xs ≡ true → live_syncs (abort c xs) ≡ []
unfolding live_syncs abort current
live_syncs-abort none [] h = refl
live_syncs-abort (some c) [] h = refl
live_syncs-abort none (x ∷ xs) h = ground (arith, live_syncs-abort none xs)
live_syncs-abort (some c) (x ∷ xs) h = ground (arith, live_syncs-abort (some c) xs)

live_syncs-append : (xs ys : List InFlight) → live_syncs (xs ++ ys) ≡ live_syncs xs ++ live_syncs ys
unfolding live_syncs
live_syncs-append [] ys = refl
live_syncs-append (x ∷ xs) ys = ground (arith, live_syncs-append xs ys)

pub live-append : (xs ys : List InFlight) → live (xs ++ ys) ≡ live xs + live ys
unfolding live
live-append [] ys = omega arith
live-append (x ∷ xs) ys = ground (arith, live-append xs ys)

pub current_of_live : (c : Option ℕ) (xs : List InFlight) → live xs ≡ 0 → current c xs ≡ true
unfolding live current
current_of_live none [] h = refl
current_of_live (some c) [] h = refl
current_of_live none (x ∷ xs) h = ground (arith, current_of_live none xs)
current_of_live (some c) (x ∷ xs) h = ground (arith, current_of_live (some c) xs)

pub current-append :
    (c : Option ℕ) (xs ys : List InFlight) → current c (xs ++ ys) ≡ (current c xs && current c ys)
unfolding current
current-append none [] ys = refl
current-append (some c) [] ys = refl
current-append none (x ∷ xs) ys = ground (arith, current-append none xs ys)
current-append (some c) (x ∷ xs) ys = ground (arith, current-append (some c) xs ys)

module _ (w : WebStorage) where
  open w use {Store}

  -- What a sync that is fired leaves on the wire.
  pub live_syncs-fire_sync :
      (p : Sync) (s : Composer Store)
      → current s.sync_abort s.wire ≡ true
      → live_syncs (fire_sync w p s).wire ≡ p ∷ []
  unfolding fire_sync live_syncs
  live_syncs-fire_sync p s h =
      let new : List InFlight =
        record { sync = p; controller = s.next_controller; aborted = false } ∷ [] in
      live_syncs-append (abort s.sync_abort s.wire) new
      ∙ ap (λ xs. xs ++ live_syncs new) (live_syncs-abort s.sync_abort s.wire h)

  -- A sync that is fired is the only live one.
  pub live-fire_sync :
      (p : Sync) (s : Composer Store)
      → current s.sync_abort s.wire ≡ true
      → (live (fire_sync w p s).wire ≡ 1)
        × (current (fire_sync w p s).sync_abort (fire_sync w p s).wire ≡ true)
  unfolding fire_sync live current
  live-fire_sync p s h =
      let none_left = live-abort s.sync_abort s.wire h in
      let new : List InFlight =
        record { sync = p; controller = s.next_controller; aborted = false } ∷ [] in
      let old = abort s.sync_abort s.wire in
      (
        ground (arith, live-append old new, none_left),
        ground (
          arith,
          current-append (some s.next_controller) old new,
          current_of_live (some s.next_controller) old none_left,
        ),
      )
