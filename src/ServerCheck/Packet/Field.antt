-- ===== src/ServerCheck/Packet/Field.antt =====
-- The reader's `liteNetString`: a length and the text of that length.
use mathlib.Core.List.{append_assoc}
use bee_ba.Common.{
  ℕ, zero, suc, ◌+◌, ◌-◌, ◌^◌, ◌<◌, ◌≡◌, refl, ap, sym, ◌∙◌, true, not, [], ◌++◌, ok, arith, length,
  All, >>=-eq-ok, fail_if_ok, ◌==◌, if◌then◌else◌,
}
use bee_ba.Common.Text.{Bytes, valid_utf8}
use bee_ba.BasisBee.Frame.{le_bytes}
use bee_ba.BasisBee.Frame.Layout.{IsByte}
use bee_ba.ServerCheck.Packet.{
  PacketReader, read_bytes, uint16, read_text, lite_net_string, string_truncated, string_not_utf8,
}
use bee_ba.ServerCheck.Packet.Reader.{
  At, advance, At-advance, read_bytes-At, Took, read_bytes-Took, Number, All-split, uint16-At,
  uint16-Number,
}

-- The encodings of a text: length 0 for the empty one, or the length plus one and the bytes.
pub data IsTextField (text field : Bytes) : Type 0 where
  absent : text ≡ [] → field ≡ le_bytes 2 0 → IsTextField text field
  present :
      field ≡ le_bytes 2 (length text + 1) ++ text
      → length text + 1 < 2 ^ 16
      → valid_utf8 text ≡ true
      → IsTextField text field

pub lite_net_string-At :
    (r : PacketReader) (text field rest : Bytes)
    → IsTextField text field
    → At r (field ++ rest)
    → (r' : PacketReader) × (lite_net_string r ≡ ok (text, r')) × At r' rest
unfolding lite_net_string
lite_net_string-At r text field rest (absent e f) a =
    let (read, a') = uint16-At r 0 rest (omega arith) (rw f at a) in
    (advance r 2, rw (read, e) refl, a')
lite_net_string-At r text field rest (present f small valid) a =
    let here : At r (le_bytes 2 (length text + 1) ++ (text ++ rest)) =
      rw (f, append_assoc (le_bytes 2 (length text + 1)) text rest) at a in
    let (read, a') = uint16-At r (length text + 1) (text ++ rest) small here in
    let read_all =
      read_bytes-At (length text + 1 - 1) string_truncated (advance r 2) text rest (omega arith)
        a' in
    (
      advance (advance r 2) (length text + 1 - 1),
      ground (arith, read, read_all, valid),
      At-advance (advance r 2) text rest (length text + 1 - 1) (omega arith) a',
    )

pub record TextRead (r' : PacketReader) (text s : Bytes) : Type 0 where
  pub field : Bytes
  pub rest : Bytes
  pub split : s ≡ field ++ rest
  pub is_field : IsTextField text field
  pub at : At r' rest
  pub bytes : All IsByte rest

-- What follows a length that was read.
pub record Body (r' : PacketReader) (n : ℕ) (text s : Bytes) : Type 0 where
  pub body : Bytes
  pub rest : Bytes
  pub split : s ≡ body ++ rest
  pub is_field : IsTextField text (le_bytes 2 n ++ body)
  pub at : At r' rest
  pub bytes : All IsByte rest

read_text-Body :
    (m : ℕ) (r r' : PacketReader) (text s : Bytes)
    → suc m < 2 ^ 16
    → At r s
    → All IsByte s
    → read_text (suc m) r ≡ ok (text, r')
    → Body r' (suc m) text s
unfolding read_text
read_text-Body m r r' text s small a b h =
    let (read, e, h') = >>=-eq-ok (read_bytes (suc m - 1) string_truncated r) _ h in
    let (valid, same) = fail_if_ok (not (valid_utf8 read.0)) string_not_utf8 h' in
    let t = read_bytes-Took (suc m - 1) string_truncated r read.1 s read.0 a e in
    read_body read.0 read.1 (ground (arith, valid)) (cc same) (cc same) t
  where
    read_body :
        (raw : Bytes) (r1 : PacketReader)
        → valid_utf8 raw ≡ true
        → raw ≡ text
        → r1 ≡ r'
        → Took r r1 (suc m - 1) s raw
        → Body r' (suc m) text s
    read_body raw r1 valid p q t =
        let len : length text + 1 ≡ suc m = rw (← p) (omega (arith, t.size)) in
        let split : s ≡ text ++ t.rest = rw (← p) t.split in
        record {
          body = text;
          rest = t.rest;
          split = split;
          is_field = present (rw len refl) (omega (arith, len)) (rw (← p) valid);
          at = rw (← q, t.next) (At-advance r raw t.rest (suc m - 1) t.size (rw t.split at a));
          bytes = (All-split text t.rest (rw split at b)).1;
        }

pub lite_net_string-Read :
    (r r' : PacketReader) (text s : Bytes)
    → At r s
    → All IsByte s
    → lite_net_string r ≡ ok (text, r')
    → TextRead r' text s
unfolding lite_net_string
lite_net_string-Read r r' text s a b h =
    let (read, e, h') = >>=-eq-ok (uint16 r) _ h in
    finish read.0 read.1 (uint16-Number r read.1 read.0 s a b e) h'
  where
    of_body :
        (n : ℕ) (r1 : PacketReader) (v : Number r1 2 n s)
        → Body r' n text v.rest
        → TextRead r' text s
    of_body n r1 v w = record {
      field = le_bytes 2 n ++ w.body;
      rest = w.rest;
      split =
          v.split
          ∙ ap (λ x. le_bytes 2 n ++ x) w.split
          ∙ sym (append_assoc (le_bytes 2 n) w.body w.rest);
      is_field = w.is_field;
      at = w.at;
      bytes = w.bytes;
    }

    finish :
        (n : ℕ) (r1 : PacketReader)
        → Number r1 2 n s
        → (let text_read = read_text n r1 in if n == 0 then ok ([], r1) else text_read)
          ≡ ok (text, r')
        → TextRead r' text s
    finish zero r1 v e = record {
      field = le_bytes 2 0;
      rest = v.rest;
      split = v.split;
      is_field = absent (cc e) refl;
      at = rw (← same) v.at;
      bytes = v.bytes;
    }
      where
        same : r1 ≡ r'
        same = cc e
    finish (suc m) r1 v e =
        of_body (suc m) r1 v
          (read_text-Body m r1 r' text v.rest v.bound v.at v.bytes (ground arith))
