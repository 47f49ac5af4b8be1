-- ===== src/Tests/Rough.antt =====
-- Numbers that lose precision but on the multiples of 125.
use remote_order_server.Common.{
  ℕ, ◌+◌, ◌-◌, ◌*◌, ◌≤◌, ◌≡◌, refl, arith, Bool, ◌&&◌, ◌==◌, true, if◌then◌else◌, Numbers, IsExact,
}
use remote_order_server.Common.Int.{ℤ, pos, pos_part, ◌-ℤ◌, ◌+ℤ◌, ◌≤ℤ◌}
use Prim.Native.Nat.{◌%◌}

abbrev is_whole : ℤ → Bool
is_whole a = pos_part a % 125 == 0

-- A difference is one too large where a number is not a multiple.
abbrev pub rough : Numbers
rough = record {
  number = λ n. n;
  minus = λ a b. if is_whole a && is_whole b then a -ℤ b else a -ℤ b +ℤ pos 1;
  column = λ n. n;
}

abbrev pub Whole : ℤ → Type 0
Whole a = (k : ℕ) × (a ≡ pos (k * 125))

is_whole-of : (a : ℤ) → Whole a → is_whole a ≡ true
is_whole-of a (k, e) = rw e (ground arith)

Whole-sub : (a b : ℤ) → Whole a → Whole b → b ≤ℤ a → Whole (a -ℤ b)
unfolding ◌-ℤ◌
Whole-sub a b (k, e) (m, f) h =
    let le : m * 125 + 0 ≤ k * 125 + 0 = rw (e, f) at h in rw (e, f) (k - m, ground (arith, le))

pub rough-IsExact : IsExact rough Whole
rough-IsExact = record {
  reads = λ a h. refl;
  subtracts = λ a b h k l. rw (is_whole-of a h, is_whole-of b k) refl;
  keeps = Whole-sub;
  stores = λ a h. refl;
}
