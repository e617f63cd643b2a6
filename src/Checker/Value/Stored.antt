-- ===== src/Checker/Value/Stored.antt =====
-- `handle_read_raw` and `handle_write_raw`: the words that handles store.
use rumur.Prelude.{
  ℕ, ◌-◌, ◌%◌, ◌^◌, ◌≤◌, ◌<◌, ◌≡◌, refl, sym, ◌∙◌, ap, true, false, ltb, leb, arith,
}
use native.Mathlib.Nat.{pow-le-pow_right, mod-eq_of_lt}
use rumur.Prelude.Results.{ok, ◌>>=◌}
use rumur.Checker.Memory.{Memory, IsBytes}
use rumur.Checker.Handle.{Handle, read_raw, write_raw}
use rumur.Checker.Handle.Align.{IsHandle}
use rumur.Checker.Handle.Write.{write_raw-Writes}
use rumur.Checker.Handle.ReadWrite.{read_raw-write_raw}
use rumur.Checker.Value.{Target, handle_read_raw, handle_write_raw}

-- A handle of a simple type that the target can read.
abbrev pub IsSimple : Target → Handle → Type 0
IsSimple c h = IsHandle h × (h.width ≤ c.raw_bits) × (h.width ≤ c.max_simple_width)

cut : (c : Target) (v w : ℕ) → w ≤ c.raw_bits → v < 2 ^ w → v % 2 ^ w % 2 ^ c.raw_bits ≡ v
cut c v w le lt =
    let within : v < 2 ^ c.raw_bits = omega (arith, pow-le-pow_right {n = 2} (omega arith) le) in
    ap (λ n. n % 2 ^ c.raw_bits) (mod-eq_of_lt lt) ∙ mod-eq_of_lt within

pub handle_read_raw-read :
    (c : Target) (m : Memory) (h : Handle)
    → IsSimple c h
    → handle_read_raw c m h ≡ (read_raw c.has_int128 m h >>= λ raw. ok (raw % 2 ^ c.raw_bits))
unfolding handle_read_raw
handle_read_raw-read c m h (p, r, s) =
    let narrow : ltb c.raw_bits h.width ≡ false = ground arith in
    let simple : leb h.width c.max_simple_width ≡ true = ground arith in rw (narrow, simple) refl

pub handle_write_raw-write :
    (c : Target) (m : Memory) (h : Handle) (v : ℕ)
    → IsSimple c h
    → v < 2 ^ 64
    → handle_write_raw c m h v ≡ write_raw c.has_int128 m h v
unfolding handle_write_raw
handle_write_raw-write c m h v (p, r, s) lt =
    let narrow : ltb c.raw_bits h.width ≡ false = ground arith in
    let simple : leb h.width c.max_simple_width ≡ true = ground arith in
    let word : leb v (2 ^ 64 - 1) ≡ true = ground arith in rw (narrow, simple, word) refl

-- The memory after a write holds a value of the handle's width.
pub handle_read_raw-handle_write_raw :
    (c : Target) (m : Memory) (h : Handle) (v : ℕ)
    → IsBytes m
    → IsSimple c h
    → v < 2 ^ h.width
    → (m' : Memory) × (handle_write_raw c m h v ≡ ok m') × (handle_read_raw c m' h ≡ ok v)
handle_read_raw-handle_write_raw c m h v b (p, r, s) lt =
    let word : v < 2 ^ 64 = omega (arith, pow-le-pow_right {n = 2} (omega arith) p.1) in
    let (m', wrote, b', changed) = write_raw-Writes c.has_int128 m h v b p word in
    let back : read_raw c.has_int128 m' h ≡ ok (v % 2 ^ h.width) =
      sym (ap (λ t. t >>= λ n. read_raw c.has_int128 n h) wrote)
      ∙ read_raw-write_raw c.has_int128 m h v b p word in
    (
      m',
      handle_write_raw-write c m h v (p, r, s) word ∙ wrote,
      handle_read_raw-read c m' h (p, r, s) ∙ rw back (ap ok (cut c v h.width r lt)),
    )
