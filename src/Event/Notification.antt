-- ===== src/Event/Notification.antt =====
-- event.rs, the trait `NotificationSealed` and the kinds of notification.
use unsend.Base.{ℕ, ◌%◌, ◌^◌, Bool, true, false, Option, none, some}
use unsend.Event.World.{Run, ok, panic}

-- The trait over the notification's own state `N`. A call of `next_tag` that panics gives `none`.
pub record Notification (N T : Type 0) : Type 0 where
  pub count : N → ℕ
  pub is_additional : N → Bool
  pub next_tag : N → Option (T × N)

pub record SingleNotify (T : Type 0) : Type 0 where
  pub additional : Bool
  pub tag : Option T

-- `self.tag.take().unwrap()`
take_tag : {T : Type 0} → Bool → Option T → Option (T × SingleNotify T)
take_tag additional none = none
take_tag additional (some t) = some (t, record { additional = additional; tag = none })

unfoldable pub single : {T : Type 0} → Notification (SingleNotify T) T
unfolding take_tag
single = record {
  count = λ n. 1;
  is_additional = λ n. n.additional;
  next_tag = λ n. take_tag n.additional n.tag;
}

-- `struct Notify(usize)`
abbrev pub Notify : Type 0
Notify = ℕ

unfoldable pub notify_count : Notification Notify (Unit {0})
notify_count = record { count = λ n. n; is_additional = λ n. false; next_tag = λ n. some (tt, n) }

module _ {N T : Type 0} (n : Notification N T) where
  -- `struct Additional<N>(N)`
  unfoldable pub additional : Notification N T
  additional = record { count = n.count; is_additional = λ s. true; next_tag = n.next_tag }

  -- `struct Tag<N, T>`: a tag that is cloned for each entry.
  unfoldable pub tag : {U : Type 0} → Notification (N × U) U
  tag = record {
    count = λ (s, t). n.count s;
    is_additional = λ (s, t). n.is_additional s;
    next_tag = λ (s, t). some (t, (s, t));
  }

  -- `struct TagWith<N, F>`: the closure over its captured state `F`.
  unfoldable pub tag_with : {F U : Type 0} → (F → U × F) → Notification (N × F) U
  tag_with f = record {
    count = λ (s, c). n.count s;
    is_additional = λ (s, c). n.is_additional s;
    next_tag = λ (s, c). some ((f c).0, (s, (f c).1));
  }

abbrev pub usize_max : ℕ
usize_max = 0xffff_ffff_ffff_ffff

-- An argument of one of the integer types, signed or not.
pub data ℤ : Type 0 where
  pos : ℕ → ℤ
  negsuc : ℕ → ℤ

-- `into_notification` of the integers, `self as usize` included; `usize` has 64 bits.
unfoldable pub into_notification : ℤ → Run Notify
into_notification (pos n) = ok (n % 2 ^ 64)
into_notification (negsuc n) = panic
