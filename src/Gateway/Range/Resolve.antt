-- ===== src/Gateway/Range/Resolve.antt =====
-- What `resolve` of crates/epoch-gateway/src/range.rs answers.
use epoch_io.Common.{
  ℕ, ◌-◌, ◌≤◌, ◌<◌, ◌≡◌, refl, arith, min, Bool, true, false, Option, none, some, ok, err, ◌↔◌,
}
use epoch_io.Gateway.Range.{ByteRange, byte_count, unsatisfiable, resolve}

-- A resolved window lies inside the object.
pub resolve-within :
    (size first : ℕ) (last : Option ℕ) (suffix : Bool) (r : ByteRange)
    → resolve size first last suffix ≡ ok r
    → (r.start ≤ r.end) × (r.end < size) × (byte_count r ≤ size)
unfolding resolve byte_count
resolve-within size first none suffix r h = ground arith
resolve-within size first (some l) suffix r h = ground arith

-- A suffix range is the object's last `first` bytes, or all of it when the object is shorter.
resolve_suffix :
    (size first : ℕ) (last : Option ℕ)
    → 0 < size
    → 0 < first
    → (r : ByteRange) × (resolve size first last true ≡ ok r)
      × (r.end ≡ size - 1)
      × (byte_count r ≡ min first size)
unfolding resolve byte_count
resolve_suffix size first last hs hf =
    (record { start = size - first; end = size - 1 }, ground arith, refl, ground arith)

-- The bytes that an interval range asks for: those from `first` through `last` that the object has.
abbrev pub IsAsked : ℕ → ℕ → Option ℕ → ℕ → Type 0
IsAsked size first none x = (first ≤ x) × (x < size)
IsAsked size first (some l) x = (first ≤ x) × (x ≤ l) × (x < size)

-- A resolved interval holds exactly the bytes of the object that were asked for.
resolve_interval :
    (size first : ℕ) (last : Option ℕ) (r : ByteRange)
    → resolve size first last false ≡ ok r
    → (x : ℕ) → ((r.start ≤ x) × (x ≤ r.end)) ↔ IsAsked size first last x
unfolding resolve
resolve_interval size first none r h x = ground arith
resolve_interval size first (some l) r h x = ground arith

-- An interval range that is refused asks for no byte of the object.
resolve_unsatisfiable :
    (size first : ℕ) (last : Option ℕ)
    → resolve size first last false ≡ err unsatisfiable
    → (x : ℕ) → ¬ IsAsked size first last x
unfolding resolve
resolve_unsatisfiable size first none h x a = ground arith
resolve_unsatisfiable size first (some l) h x a = ground arith
