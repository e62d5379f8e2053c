-- ===== src/Conversion/Panics.antt =====
-- pkg/apiserver/conversion: the errors that stand for a panic.
use apiextensions_apiserver.Conversion.{
  panics, webhook_failed, invalid_item_meta, invalid_item, invalid_object_meta, invalid_object,
  ConversionError,
}
use apiextensions_apiserver.Prelude.{err, ◌>>=◌, ok, ◌≡◌, Bool, Result, refl, true, false}

-- A panic, also inside the text of another error.
unfoldable pub is_panic : ConversionError → Bool
is_panic panics = true
is_panic (invalid_object e) = is_panic e
is_panic (invalid_object_meta e) = is_panic e
is_panic (invalid_item gvk i e) = is_panic e
is_panic (invalid_item_meta gvk i e) = is_panic e
is_panic (webhook_failed gvk e) = is_panic e
is_panic e = false

module _ {ℓ} {A : Type ℓ} where
  unfoldable pub panicked : Result ConversionError A → Bool
  unfolding is_panic
  panicked (ok a) = false
  panicked (err e) = is_panic e

pub panicked-bind {ℓ κ} :
    {A : Type ℓ} {B : Type κ} (r : Result ConversionError A) (f : A → Result ConversionError B)
    → panicked r ≡ false
    → ((a : A) → r ≡ ok a → panicked (f a) ≡ false)
    → panicked (r >>= f) ≡ false
unfolding panicked
panicked-bind (ok a) f h k = k a refl
panicked-bind (err e) f h k = h
