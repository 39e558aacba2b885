-- ===== src/Io/Exact.antt =====
-- What a transfer of an exact length does: order, completeness, and when it succeeds.
use stm32f429_adbd.Common.{
  ℕ, zero, suc, ◌+◌, ◌-◌, ◌^◌, ◌≤◌, ◌<◌, ◌≡◌, ◌↔◌, refl, List, [], ◌∷◌, ◌++◌, arith, length,
  length-append, take, drop, take-append-drop, length-drop, append_assoc, ap, ◌∙◌, sym,
}
use stm32f429_adbd.Common.Words.{sub32}
use stm32f429_adbd.Io.{
  eintr, eagain, other_errno, ReadReply, got, read_failed, WriteReply, accepted, write_failed,
  complete, readx, writex,
}

-- A read returns at most the bytes that it was asked for, until the transfer is done.
abbrev pub IsHonestRead : List ReadReply → ℕ → Type 0
IsHonestRead replies zero = Unit {0}
IsHonestRead [] (suc len) = Unit {0}
IsHonestRead (got bs ∷ replies) (suc len) =
    (length bs ≤ suc len) × IsHonestRead replies (suc len - length bs)
IsHonestRead (read_failed e ∷ replies) (suc len) = IsHonestRead replies (suc len)

-- Every reply brings bytes, or is an interruption.
abbrev pub IsReadSteady : List ReadReply → Type 0
IsReadSteady [] = Unit {0}
IsReadSteady (got bs ∷ replies) = (0 < length bs) × IsReadSteady replies
IsReadSteady (read_failed e ∷ replies) = (e ≡ eintr) × IsReadSteady replies

abbrev pub read_bytes : List ReadReply → List ℕ
read_bytes [] = []
read_bytes (got bs ∷ replies) = bs ++ read_bytes replies
read_bytes (read_failed e ∷ replies) = read_bytes replies

readx-order_eq :
    (replies : List ReadReply) (len : ℕ)
    → read_bytes replies ≡ (readx replies len).1 ++ read_bytes (readx replies len).2
unfolding readx
readx-order_eq replies zero = refl
readx-order_eq [] (suc len) = refl
readx-order_eq (got [] ∷ replies) (suc len) = refl
readx-order_eq (got (b ∷ bs) ∷ replies) (suc len) =
    ap (◌++◌ (b ∷ bs)) (readx-order_eq replies (sub32 (suc len) (length (b ∷ bs))))
    ∙ sym (append_assoc (b ∷ bs) _ _)
readx-order_eq (read_failed eintr ∷ replies) (suc len) = readx-order_eq replies (suc len)
readx-order_eq (read_failed eagain ∷ replies) (suc len) = refl
readx-order_eq (read_failed other_errno ∷ replies) (suc len) = refl

readx-length :
    (replies : List ReadReply) (len : ℕ)
    → len < 2 ^ 32
    → IsHonestRead replies len
    → (length (readx replies len).1 ≤ len)
      × (((readx replies len).0 ≡ complete) ↔ (length (readx replies len).1 ≡ len))
unfolding readx
readx-length replies zero h honest = ground arith
readx-length [] (suc len) h honest = ground arith
readx-length (got [] ∷ replies) (suc len) h honest = ground arith
readx-length (got (b ∷ bs) ∷ replies) (suc len) h honest =
    let e : sub32 (suc len) (length (b ∷ bs)) ≡ suc len - length (b ∷ bs) = omega arith in
    rw e (
      ground (
        arith,
        readx-length replies (suc len - length (b ∷ bs)) (omega arith) honest.1,
        length-append bs (readx replies (suc len - length (b ∷ bs))).1,
      ))
readx-length (read_failed eintr ∷ replies) (suc len) h honest =
    readx-length replies (suc len) h honest
readx-length (read_failed eagain ∷ replies) (suc len) h honest = ground arith
readx-length (read_failed other_errno ∷ replies) (suc len) h honest = ground arith

-- `readx` over replies no longer than asked stores the bytes in the order in which they came and
-- never more than `len`; it returns 0 exactly if it has stored `len` bytes; what it has not
-- consumed is left to the next call.
pub readx_exact :
    (replies : List ReadReply) (len : ℕ)
    → len < 2 ^ 32
    → IsHonestRead replies len
    → let (end, bytes, left) = readx replies len in
      (length bytes ≤ len)
      × ((end ≡ complete) ↔ (length bytes ≡ len))
      × (read_bytes replies ≡ bytes ++ read_bytes left)
readx_exact replies len h honest =
    let (short, done) = readx-length replies len h honest in
    (short, done, readx-order_eq replies len)

-- `readx` succeeds whenever the replies bring at least `len` bytes with nothing but interruptions
-- between them.
pub readx-IsReadSteady :
    (replies : List ReadReply) (len : ℕ)
    → len < 2 ^ 32
    → IsHonestRead replies len
    → IsReadSteady replies
    → len ≤ length (read_bytes replies)
    → (readx replies len).0 ≡ complete
unfolding readx
readx-IsReadSteady replies zero h honest steady enough = refl
readx-IsReadSteady [] (suc len) h honest steady enough = absurd (omega arith)
readx-IsReadSteady (got [] ∷ replies) (suc len) h honest steady enough =
    absurd (omega (arith, steady.0))
readx-IsReadSteady (got (b ∷ bs) ∷ replies) (suc len) h honest steady enough =
    let e : sub32 (suc len) (length (b ∷ bs)) ≡ suc len - length (b ∷ bs) = omega arith in
    rw (e, readx)
      (readx-IsReadSteady replies (suc len - length (b ∷ bs)) (omega arith) honest.1 steady.1
        (omega (arith, length-append bs (read_bytes replies))))
readx-IsReadSteady (read_failed eintr ∷ replies) (suc len) h honest steady enough =
    readx-IsReadSteady replies (suc len) h honest steady.1 enough
readx-IsReadSteady (read_failed eagain ∷ replies) (suc len) h honest steady enough =
    ground (arith, steady.0)
readx-IsReadSteady (read_failed other_errno ∷ replies) (suc len) h honest steady enough =
    ground (arith, steady.0)

-- Every reply accepts something, or is an interruption.
abbrev pub IsWriteSteady : List WriteReply → Type 0
IsWriteSteady [] = Unit {0}
IsWriteSteady (accepted r ∷ replies) = (0 < r) × IsWriteSteady replies
IsWriteSteady (write_failed e ∷ replies) = (e ≡ eintr) × IsWriteSteady replies

abbrev pub capacity : List WriteReply → ℕ
capacity [] = 0
capacity (accepted r ∷ replies) = r + capacity replies
capacity (write_failed e ∷ replies) = capacity replies

-- `writex` hands over a prefix of the buffer, in order, and returns 0 exactly if nothing of the
-- buffer is left over.
pub writex_prefix :
    (replies : List WriteReply) (buf : List ℕ)
    → (unsent : List ℕ) × (buf ≡ (writex replies buf).1 ++ unsent)
      × (((writex replies buf).0 ≡ complete) ↔ (unsent ≡ []))
unfolding writex
writex_prefix replies [] = ([], refl, ground arith)
writex_prefix [] (b ∷ bs) = (b ∷ bs, refl, ground arith)
writex_prefix (accepted zero ∷ replies) (b ∷ bs) = (b ∷ bs, refl, ground arith)
writex_prefix (accepted (suc r) ∷ replies) (b ∷ bs) =
    let (unsent, split, done) = writex_prefix replies (drop r bs) in
    (
      unsent,
      sym (take-append-drop (suc r) (b ∷ bs))
          ∙ ap (◌++◌ (b ∷ take r bs)) split
          ∙ sym (append_assoc (b ∷ take r bs) _ unsent),
      done,
    )
writex_prefix (write_failed eintr ∷ replies) (b ∷ bs) = writex_prefix replies (b ∷ bs)
writex_prefix (write_failed eagain ∷ replies) (b ∷ bs) = (b ∷ bs, refl, ground arith)
writex_prefix (write_failed other_errno ∷ replies) (b ∷ bs) = (b ∷ bs, refl, ground arith)

-- `writex` succeeds whenever the replies accept at least the buffer's length with nothing but
-- interruptions between them.
writex-IsWriteSteady :
    (replies : List WriteReply) (buf : List ℕ)
    → IsWriteSteady replies
    → length buf ≤ capacity replies
    → (writex replies buf).0 ≡ complete
unfolding writex
writex-IsWriteSteady replies [] steady enough = refl
writex-IsWriteSteady [] (b ∷ bs) steady enough = absurd (omega arith)
writex-IsWriteSteady (accepted zero ∷ replies) (b ∷ bs) steady enough =
    absurd (omega (arith, steady.0))
writex-IsWriteSteady (accepted (suc r) ∷ replies) (b ∷ bs) steady enough =
    writex-IsWriteSteady replies (drop r bs) steady.1 (omega (arith, length-drop r bs))
writex-IsWriteSteady (write_failed eintr ∷ replies) (b ∷ bs) steady enough =
    writex-IsWriteSteady replies (b ∷ bs) steady.1 enough
writex-IsWriteSteady (write_failed eagain ∷ replies) (b ∷ bs) steady enough =
    ground (arith, steady.0)
writex-IsWriteSteady (write_failed other_errno ∷ replies) (b ∷ bs) steady enough =
    ground (arith, steady.0)
