-- ===== src/Feed/Menu.antt =====
-- The bell of orbynadmin's header and its menu.
use meadow_ops.Base.{
  ℕ, zero, suc, ◌≤◌, ◌≡◌, refl, ◌↔◌, String, false, none, List, [], ◌∷◌, length, any, ltb, arith,
}
use meadow_ops.Feed.{
  NotificationFeedItem, is_unread, unread_count, badge, take, menu_item_limit, shown_items,
}

length-take {ℓ} : {A : Type ℓ} (n : ℕ) (xs : List A) → length (take n xs) ≤ n
length-take zero xs = omega arith
length-take (suc n) [] = omega arith
length-take (suc n) (x ∷ xs) = ground (arith, length-take n xs)

length-take_all {ℓ} : {A : Type ℓ} (n : ℕ) (xs : List A) → length (take n xs) ≤ length xs
length-take_all zero xs = omega arith
length-take_all (suc n) [] = omega arith
length-take_all (suc n) (x ∷ xs) = ground (arith, length-take_all n xs)

unread_count_bound : (items : List NotificationFeedItem) → unread_count items ≤ length items
unfolding unread_count
unread_count_bound [] = omega arith
unread_count_bound (item ∷ items) = ground (arith, unread_count_bound items)

any-is_unread :
    (items : List NotificationFeedItem) → any is_unread items ≡ ltb 0 (unread_count items)
unfolding unread_count
any-is_unread [] = refl
any-is_unread (item ∷ items) = ground (arith, any-is_unread items)

-- The bell counts no more notifications than there are, and has a badge exactly if one is unread,
-- however many; its menu lists at most five, and no more than there are.
pub menu_bounds :
    (printed : ℕ → String) (items : List NotificationFeedItem)
    → (unread_count items ≤ length items)
      × ((badge printed (unread_count items) ≡ none) ↔ (any is_unread items ≡ false))
      × (length (shown_items items) ≤ 5)
      × (length (shown_items items) ≤ length items)
unfolding badge shown_items
menu_bounds printed items = ground (
  arith,
  unread_count_bound items,
  any-is_unread items,
  length-take menu_item_limit items,
  length-take_all menu_item_limit items,
)
