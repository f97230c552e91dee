-- ===== src/DnbError/Laws.antt =====
-- What `AsString` answers, and what it keeps.
use Prim.Native.String.{String}
use debug_learning.DnbError.{
  DnbError, as_string, set_error_string, is_empty, success, assign, mach_kernel,
}
use debug_learning.Prelude.{
  ℕ, ◌≡◌, arith, Bool-cases, inl, inr, refl, ne→==_false, ◌≢◌, u32, Option, none, some, false,
  if◌then◌else◌,
}

module _ (mach_error_string strerror : ℕ → Option String) where
  -- Asking twice gives the same text, and leaves the status and the flavor alone.
  pub as_string_again :
      (e : DnbError)
      → let (s, e') = as_string mach_error_string strerror e in
        (as_string mach_error_string strerror e' ≡ (s, e'))
        × (e'.err ≡ e.err)
        × (e'.flavor ≡ e.flavor)
  unfolding as_string
  as_string_again e = ground arith

  -- A text that is set by `SetErrorString` is what `AsString` answers only if the status already
  -- stands for a failure; else the answer stays "success".
  pub as_string-set_error_string :
      (s : String) (e : DnbError)
      → is_empty s ≡ false
      → (as_string mach_error_string strerror (set_error_string (some s) e)).0
        ≡ (if success e then "success" else s)
  unfolding as_string
  as_string-set_error_string s e h = ground arith

  -- The text of a kernel result other than 0 is the one that Mach has for it, and "unknown" where
  -- Mach has none.
  pub as_string-assign :
      (kr : ℕ)
      → u32 kr ≢ 0
      → (as_string mach_error_string strerror (assign kr)).0 ≡ elim (mach_error_string (u32 kr)) [
        | none ↦ "unknown"
        | some s ↦ if is_empty s then "unknown" else s
      ]
  unfolding as_string
  as_string-assign kr h = rw (ne→==_false (u32 kr) 0 h) (kept (mach_error_string (u32 kr)))
    where
      kept :
          (o : Option String)
          → let e : DnbError = elim o [
            | none ↦ assign kr
            | some s ↦ record { err = u32 kr; flavor = mach_kernel; str = s }
          ] in
            let r : String × DnbError = if is_empty e.str then ("unknown", e) else (e.str, e) in
            r.0 ≡ elim o [ none ↦ "unknown" | some s ↦ if is_empty s then "unknown" else s ]
      kept none = refl
      kept (some s) = elim (Bool-cases (is_empty s)) [ inl e ↦ rw e | inr e ↦ rw e ]
