-- ===== src/Event/Conversions.antt =====
-- event.rs, the trait `IntoNotification`: what `Event::notify` takes, and the calls that build it.
use unsend.Base.{refl, ℕ, ◌%◌, ◌^◌, Bool, true, false, ◌≡◌, ap}
use unsend.Event.World.{Run, ok, panic, fault}
use unsend.Event.Notification.{
  Notification, Notify, notify_count, additional, tag, tag_with, into_notification, ℤ, pos, negsuc,
}

-- The trait for the type `I`, whose `Notify` is `N` and whose `Tag` is `T`.
pub record IntoNotification (I N T : Type 0) : Type 0 where
  pub notification : Notification N T
  pub into : I → Run N

abbrev pub map_run : {A B : Type 0} → (A → B) → Run A → Run B
map_run f (ok a) = ok (f a)
map_run f panic = panic
map_run f fault = fault

-- The implementation for the integers, and the one for every notification.
unfoldable pub of_integer : IntoNotification ℤ Notify (Unit {0})
unfolding into_notification
of_integer = record { notification = notify_count; into = into_notification }

unfoldable pub of_notification : {N T : Type 0} → Notification N T → IntoNotification N N T
of_notification n = record { notification = n; into = λ s. ok s }

module _ {I N T : Type 0} (i : IntoNotification I N T) where
  -- The methods: a call on an `I`, as a conversion of it.
  unfoldable pub into_additional : IntoNotification I N T
  unfolding additional
  into_additional = record { notification = additional i.notification; into = i.into }

  unfoldable pub into_tag : {U : Type 0} → U → IntoNotification I (N × U) U
  unfolding tag
  into_tag t = record {
    notification = tag i.notification;
    into = λ x. map_run (λ s. (s, t)) (i.into x);
  }

  unfoldable pub into_tag_with : {F U : Type 0} → (F → U × F) → F → IntoNotification I (N × F) U
  unfolding tag_with
  into_tag_with f c = record {
    notification = tag_with i.notification f;
    into = λ x. map_run (λ s. (s, c)) (i.into x);
  }

-- Any chain of the methods from an integer; the Boolean tells whether `additional` is among them.
pub data Chain : (N T : Type 0) → IntoNotification ℤ N T → Bool → Type 1 where
  integer : Chain Notify (Unit {0}) of_integer false
  additionals :
      {N T : Type 0} (i : IntoNotification ℤ N T) (b : Bool)
      → Chain N T i b
      → Chain N T (into_additional i) true
  tags :
      {N T U : Type 0} (t : U) (i : IntoNotification ℤ N T) (b : Bool)
      → Chain N T i b
      → Chain (N × U) U (into_tag i t) b
  tags_with :
      {N T F U : Type 0} (f : F → U × F) (c : F) (i : IntoNotification ℤ N T) (b : Bool)
      → Chain N T i b
      → Chain (N × F) U (into_tag_with i f c) b

-- A notification that was built from an integer by any chain of `additional`, `tag` and `tag_with` has
-- the integer's count, modulo 2 ^ 64, and is additional exactly when `additional` was called, wherever
-- in the chain; a negative integer panics.
pub Chain-counts :
    (N T : Type 0) (i : IntoNotification ℤ N T) (b : Bool) (n : ℕ)
    → Chain N T i b
    → ((s : N) × (i.into (pos n) ≡ ok s)
        × (i.notification.count s ≡ n % 2 ^ 64)
        × (i.notification.is_additional s ≡ b))
      × (i.into (negsuc n) ≡ panic)
unfolding of_integer into_additional into_tag into_tag_with notify_count
Chain-counts _ _ _ _ n integer = ((n % 2 ^ 64, refl, refl, refl), refl)
Chain-counts _ _ _ _ n (additionals {N} {T} i b c) =
    let ((s, e, k, x), p) = Chain-counts N T i b n c in ((s, e, k, refl), p)
Chain-counts _ _ _ _ n (tags {N} {T} t i b c) =
    let ((s, e, k, x), p) = Chain-counts N T i b n c in
    (((s, t), ap (map_run (λ s. (s, t))) e, k, x), ap (map_run (λ s. (s, t))) p)
Chain-counts _ _ _ _ n (tags_with {N} {T} f a i b c) =
    let ((s, e, k, x), p) = Chain-counts N T i b n c in
    (((s, a), ap (map_run (λ s. (s, a))) e, k, x), ap (map_run (λ s. (s, a))) p)
