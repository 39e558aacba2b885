-- ===== src/Usb/Bulk.antt =====
-- The loops of adbd/src/usb_linux_client.c beside those of adbd/src/transport.c: they differ
-- where a call returns 0.
use stm32f429_adbd.Common.{
  ℕ, zero, suc, ◌+◌, ◌-◌, ◌^◌, ◌<◌, ◌≡◌, refl, subst, true, false, List, [], ◌∷◌, arith, length,
  drop, replicate, leb, ◌==◌, append-nil, ◌∙◌, ap, Bool-cases, inl, inr, length-drop, take_all,
  take-append-drop, leb→le,
}
use stm32f429_adbd.Common.Words.{sub32}
use stm32f429_adbd.Io.{
  Transfer, ReadReply, got, read_failed, WriteReply, accepted, write_failed, eintr, eagain,
  other_errno, complete, failed, waiting, readx,
}
use stm32f429_adbd.Io.Exact.{IsHonestRead, readx_exact}
use stm32f429_adbd.Usb.{
  bulk_read, usb_ffs_read, exactly, bulk_write, usb_ffs_write, in_all, usb_adb_write, usb_write,
  Driver, functionfs, legacy,
}

-- No read returns 0 before the transfer is done.
abbrev pub NoEnd : List ReadReply → ℕ → Type 0
NoEnd replies zero = Unit {0}
NoEnd [] (suc len) = Unit {0}
NoEnd (got bs ∷ replies) (suc len) = (0 < length bs) × NoEnd replies (suc len - length bs)
NoEnd (read_failed e ∷ replies) (suc len) = NoEnd replies (suc len)

-- The piece that completes a transfer, and one that does not.
last_piece :
    (b len : ℕ) (bs : List ℕ) (replies : List ReadReply)
    → length bs ≡ len
    → len < 2 ^ 32
    → bulk_read (got (b ∷ bs) ∷ replies) (suc len) ≡ readx (got (b ∷ bs) ∷ replies) (suc len)
unfolding bulk_read readx
last_piece b len bs replies e h =
    let none_left : sub32 (suc len) (suc (length bs)) ≡ 0 = omega arith in
    let full : leb (suc len) (suc (length bs)) ≡ true = ground (arith, e) in
    rw (none_left, full, append-nil bs) refl

next_piece :
    (b len k : ℕ) (bs : List ℕ) (replies : List ReadReply)
    → length bs + suc k ≡ len
    → len < 2 ^ 32
    → bulk_read replies (suc k) ≡ readx replies (suc k)
    → bulk_read (got (b ∷ bs) ∷ replies) (suc len) ≡ readx (got (b ∷ bs) ∷ replies) (suc len)
unfolding bulk_read readx
next_piece b len k bs replies e h rest =
    let left : sub32 (suc len) (suc (length bs)) ≡ suc k = omega arith in
    let left' : suc len - suc (length bs) ≡ suc k = omega arith in
    let short : leb (suc len) (suc (length bs)) ≡ false = ground (arith, e) in
    rw (left, left', short, rest) refl

-- On FunctionFS a read of some length does what `readx` does, unless a call returns 0.
pub bulk_read-readx :
    (replies : List ReadReply) (len : ℕ)
    → suc len < 2 ^ 32
    → IsHonestRead replies (suc len)
    → NoEnd replies (suc len)
    → bulk_read replies (suc len) ≡ readx replies (suc len)
unfolding bulk_read readx
bulk_read-readx [] len h honest more = refl
bulk_read-readx (got [] ∷ replies) len h honest more = absurd (omega (arith, more.0))
bulk_read-readx (got (b ∷ bs) ∷ replies) len h honest more =
    by_left (bulk_read-readx replies) (suc len - length (b ∷ bs)) refl
  where
    by_left :
        ((k : ℕ)
          → suc k < 2 ^ 32
          → IsHonestRead replies (suc k)
          → NoEnd replies (suc k)
          → bulk_read replies (suc k) ≡ readx replies (suc k))
        → (k : ℕ) → suc len - length (b ∷ bs) ≡ k
        → bulk_read (got (b ∷ bs) ∷ replies) (suc len) ≡ readx (got (b ∷ bs) ∷ replies) (suc len)
    by_left rest zero e = last_piece b len bs replies (omega (arith, honest.0)) (omega arith)
    by_left rest (suc k) e = next_piece b len k bs replies (omega arith) (omega arith) (
        rest k (omega arith) (subst (IsHonestRead replies) e honest.1)
          (subst (NoEnd replies) e more.1))
bulk_read-readx (read_failed eintr ∷ replies) len h honest more =
    bulk_read-readx replies len h honest more
bulk_read-readx (read_failed eagain ∷ replies) len h honest more = refl
bulk_read-readx (read_failed other_errno ∷ replies) len h honest more = refl

exactly-eq :
    (len : ℕ) (r : Transfer × List ℕ × List ReadReply)
    → (r.0 ≡ complete → length r.1 ≡ len)
    → exactly len r ≡ r
unfolding exactly
exactly-eq len (complete, bytes, left) h = ground (arith, h refl)
exactly-eq len (failed, bytes, left) h = refl
exactly-eq len (waiting, bytes, left) h = refl

-- `usb_ffs_read` on FunctionFS does what `readx` does, to its result, the bytes stored and what is
-- left to the next call, for any length but 0, if no call returns more than it was asked for, and
-- none returns 0 before the transfer is done.
pub usb_ffs_read-readx :
    (replies : List ReadReply) (len : ℕ)
    → suc len < 2 ^ 32
    → IsHonestRead replies (suc len)
    → NoEnd replies (suc len)
    → usb_ffs_read replies (suc len) ≡ readx replies (suc len)
unfolding usb_ffs_read
usb_ffs_read-readx replies len h honest more =
    ap (exactly (suc len)) (bulk_read-readx replies len h honest more)
    ∙ exactly-eq (suc len) (readx replies (suc len))
        (λ e. (readx_exact replies (suc len) h honest).1.0 e)

-- `bulk_read` does not end at the end of the file: while every call returns 0 it reads on, where
-- `readx` fails at the first.
pub bulk_read-eof :
    (n len : ℕ)
    → (bulk_read (replicate n (got [])) (suc len) ≡ (waiting, [], []))
      × (readx (replicate (suc n) (got [])) (suc len) ≡ (failed, [], replicate n (got [])))
unfolding bulk_read readx
bulk_read-eof zero len = (refl, refl)
bulk_read-eof (suc n) len =
    let same : suc len - 0 ≡ suc len = omega arith in
    let short : leb (suc len) 0 ≡ false = ground arith in
    (rw (same, (bulk_read-eof n len).0, short) refl, refl)

bulk_write-whole :
    (replies : List WriteReply) (buf : List ℕ)
    → (bulk_write replies buf).0 ≡ complete
    → (bulk_write replies buf).2 ≡ length buf
    → (bulk_write replies buf).1 ≡ buf
unfolding bulk_write
bulk_write-whole [] buf h all = absurd (ground (arith, h))
bulk_write-whole (accepted r ∷ replies) buf h all = elim (Bool-cases (leb (length buf) r)) [
  | inl done ↦ rw done (take_all r buf (leb→le _ _ done))
  | inr more ↦
      let rest =
        bulk_write-whole replies (drop r buf) (ground (arith, h, more))
          (ground (arith, all, more, length-drop r buf)) in
      rw (more, rest) (take-append-drop r buf)
]
bulk_write-whole (write_failed eintr ∷ replies) buf h all = bulk_write-whole replies buf h all
bulk_write-whole (write_failed eagain ∷ replies) buf h all = absurd (ground (arith, h))
bulk_write-whole (write_failed other_errno ∷ replies) buf h all = absurd (ground (arith, h))

in_all-complete :
    (len : ℕ) (r : Transfer × List ℕ × ℕ × List WriteReply)
    → (in_all len r).0 ≡ complete
    → (r.0 ≡ complete) × (r.2 ≡ len) × ((in_all len r).1 ≡ r.1)
unfolding in_all
in_all-complete len (complete, bytes, count, left) h = ground (arith, h)
in_all-complete len (failed, bytes, count, left) h = absurd (ground (arith, h))
in_all-complete len (waiting, bytes, count, left) h = absurd (ground (arith, h))

-- Where a write returns 0 the whole buffer was taken, in order, with either driver.
pub usb_write-whole :
    (driver : Driver) (replies : List WriteReply) (buf : List ℕ)
    → (usb_write driver replies buf).0 ≡ complete
    → (usb_write driver replies buf).1 ≡ buf
unfolding usb_write usb_ffs_write usb_adb_write
usb_write-whole functionfs replies buf h =
    let (done, all, same) = in_all-complete (length buf) (bulk_write replies buf) h in
    same ∙ bulk_write-whole replies buf done all
usb_write-whole legacy [] buf h = absurd (ground (arith, h))
usb_write-whole legacy (accepted r ∷ replies) buf h = elim (Bool-cases (r == length buf)) [
  | inl e ↦ take_all r buf (ground (arith, e))
  | inr e ↦ absurd (ground (arith, h, e))
]
usb_write-whole legacy (write_failed e ∷ replies) buf h = absurd (ground (arith, h))
