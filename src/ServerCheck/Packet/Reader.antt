-- ===== src/ServerCheck/Packet/Reader.antt =====
-- The packet reader's moves: it reads what stands before it, and nothing else.
use mathlib.Core.Path.{subst}
use bee_ba.Common.{
  ℕ, ◌+◌, ◌^◌, ◌≤◌, ◌<◌, ◌≡◌, refl, ap, sym, ◌∙◌, [], ◌∷◌, ◌++◌, ok, arith, length, take, drop, All,
  take-append-drop, length-take, length-drop, length-append, drop-drop, take-append_of_length,
  drop-append_of_length, >>=-eq-ok,
}
use bee_ba.Common.Text.{Bytes}
use bee_ba.BasisBee.Frame.{le_value, le_bytes}
use bee_ba.BasisBee.Frame.Layout.{
  IsByte, length-le_bytes, le_value-le_bytes, le_bytes-le_value, le_value_lt,
}
use bee_ba.ServerCheck.Packet.{PacketReader, PacketError, truncated, read_bytes, uint16, uint32}

-- The reader stands before `rest`.
pub record At (r : PacketReader) (rest : Bytes) : Type 0 where
  pub within : r.pos ≤ length r.buf
  pub before : drop r.pos r.buf ≡ rest

abbrev pub advance : PacketReader → ℕ → PacketReader
advance r n = record r { pos = r.pos + n }

pub At-length : {r : PacketReader} {rest : Bytes} → At r rest → length r.buf ≡ r.pos + length rest
At-length {r} a = rw (← a.before, length-drop r.pos r.buf) (omega (arith, a.within))

pub At-advance :
    (r : PacketReader) (raw rest : Bytes) (n : ℕ)
    → length raw ≡ n
    → At r (raw ++ rest)
    → At (advance r n) rest
At-advance r raw rest n h a = record {
  within = omega (arith, At-length a, length-append raw rest);
  before =
      sym (drop-drop r.pos n r.buf) ∙ ap (drop n) a.before ∙ drop-append_of_length n raw rest h;
}

pub read_bytes-At :
    (n : ℕ) (e : PacketError) (r : PacketReader) (raw rest : Bytes)
    → length raw ≡ n
    → At r (raw ++ rest)
    → read_bytes n e r ≡ ok (raw, advance r n)
unfolding read_bytes
read_bytes-At n e r raw rest h a =
    ground
      (arith, At-length a, length-append raw rest, a.before, take-append_of_length n raw rest h)

-- What a successful read has taken.
pub record Took (r r' : PacketReader) (n : ℕ) (s raw : Bytes) : Type 0 where
  pub rest : Bytes
  pub split : s ≡ raw ++ rest
  pub size : length raw ≡ n
  pub next : r' ≡ advance r n

pub read_bytes-Took :
    (n : ℕ) (e : PacketError) (r r' : PacketReader) (s raw : Bytes)
    → At r s
    → read_bytes n e r ≡ ok (raw, r')
    → Took r r' n s raw
unfolding read_bytes
read_bytes-Took n e r r' s raw a h =
    let taken : raw ≡ take n s = ground (arith, a.before) in
    record {
      rest = drop n s;
      split = rw taken (sym (take-append-drop n s));
      size = rw (taken, length-take n s) (ground (arith, At-length a));
      next = ground arith;
    }

pub uint16-At :
    (r : PacketReader) (n : ℕ) (rest : Bytes)
    → n < 2 ^ 16
    → At r (le_bytes 2 n ++ rest)
    → (uint16 r ≡ ok (n, advance r 2)) × At (advance r 2) rest
unfolding uint16
uint16-At r n rest h a = (
  rw
      (
        read_bytes-At 2 truncated r (le_bytes 2 n) rest (length-le_bytes 2 n) a,
        le_value-le_bytes 2 n h,
      )
      refl,
  At-advance r (le_bytes 2 n) rest 2 (length-le_bytes 2 n) a,
)

pub uint32-At :
    (r : PacketReader) (n : ℕ) (rest : Bytes)
    → n < 2 ^ 32
    → At r (le_bytes 4 n ++ rest)
    → (uint32 r ≡ ok (n, advance r 4)) × At (advance r 4) rest
unfolding uint32
uint32-At r n rest h a = (
  rw
      (
        read_bytes-At 4 truncated r (le_bytes 4 n) rest (length-le_bytes 4 n) a,
        le_value-le_bytes 4 n h,
      )
      refl,
  At-advance r (le_bytes 4 n) rest 4 (length-le_bytes 4 n) a,
)

-- A number that was read, and what it leaves.
pub record Number (r' : PacketReader) (k n : ℕ) (s : Bytes) : Type 0 where
  pub rest : Bytes
  pub split : s ≡ le_bytes k n ++ rest
  pub bound : n < 256 ^ k
  pub at : At r' rest
  pub bytes : All IsByte rest

pub All-split : (xs ys : Bytes) → All IsByte (xs ++ ys) → All IsByte xs × All IsByte ys
All-split [] ys h = (tt, h)
All-split (x ∷ xs) ys h = let t = All-split xs ys h.1 in ((h.0, t.0), t.1)

pub Took-Number :
    (r r' : PacketReader) (k n : ℕ) (s raw : Bytes)
    → At r s
    → All IsByte s
    → Took r r' k s raw
    → le_value raw ≡ n
    → Number r' k n s
Took-Number r r' k n s raw a b t v =
    let parts = All-split raw t.rest (rw t.split at b) in
    record {
      rest = t.rest;
      split =
          t.split ∙ ap (λ x. x ++ t.rest) (sym (rw (t.size, v) at (le_bytes-le_value raw parts.0)));
      bound = rw (v, t.size) at (le_value_lt raw parts.0);
      at = rw t.next (At-advance r raw t.rest k t.size (rw t.split at a));
      bytes = parts.1;
    }

pub Took-end :
    {r : PacketReader} (x y : PacketReader) {n : ℕ} {s raw : Bytes}
    → x ≡ y
    → Took r x n s raw
    → Took r y n s raw
Took-end {r} x y {n} {s} {raw} e t = subst (λ z. Took r z n s raw) e t

pub uint16-Number :
    (r r' : PacketReader) (n : ℕ) (s : Bytes)
    → At r s
    → All IsByte s
    → uint16 r ≡ ok (n, r')
    → Number r' 2 n s
unfolding uint16
uint16-Number r r' n s a b h =
    let (read, e, h') = >>=-eq-ok (read_bytes 2 truncated r) _ h in
    Took-Number r r' 2 n s read.0 a b
      (Took-end read.1 r' (cc h') (read_bytes-Took 2 truncated r read.1 s read.0 a e)) (cc h')

pub uint32-Number :
    (r r' : PacketReader) (n : ℕ) (s : Bytes)
    → At r s
    → All IsByte s
    → uint32 r ≡ ok (n, r')
    → Number r' 4 n s
unfolding uint32
uint32-Number r r' n s a b h =
    let (read, e, h') = >>=-eq-ok (read_bytes 4 truncated r) _ h in
    Took-Number r r' 4 n s read.0 a b
      (Took-end read.1 r' (cc h') (read_bytes-Took 4 truncated r read.1 s read.0 a e)) (cc h')
