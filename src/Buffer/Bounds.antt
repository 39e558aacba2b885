-- ===== src/Buffer/Bounds.antt =====
-- What the functions of adbd/src/utils.c write, and where.
use stm32f429_adbd.Common.{
  ℕ, zero, suc, ◌+◌, ◌-◌, ◌≤◌, ◌<◌, ◌≡◌, ◌≢◌, refl, sym, ap, ◌∙◌, some, List, [], ◌∷◌, ◌++◌,
  if◌then◌else◌, ltb, length, take, drop, set, arith, length-append, length-take, length-drop,
  get_or, take_all, append-nil, append_assoc,
}
use stm32f429_adbd.Buffer.{put_bytes, buff_addb}

set-after :
    (xs ys : List ℕ) (v : ℕ) → 0 < length ys → set (xs ++ ys) (length xs) v ≡ xs ++ (v ∷ drop 1 ys)
set-after [] [] v h = absurd (omega arith)
set-after [] (y ∷ ys) v h = refl
set-after (x ∷ xs) ys v h = ap (◌∷◌ x) (set-after xs ys v h)

drop-drop : (n : ℕ) (xs : List ℕ) → drop 1 (drop n xs) ≡ drop (suc n) xs
drop-drop zero xs = refl
drop-drop (suc n) [] = refl
drop-drop (suc n) (x ∷ xs) = drop-drop n xs

-- Ends a text that was copied to the memory with a NUL behind it.
end_text :
    (at : ℕ) (text mem : List ℕ)
    → at + length text < length mem
    → set (take at mem ++ (text ++ drop (at + length text) mem)) (at + length text) 0
      ≡ take at mem ++ (text ++ (0 ∷ drop (suc (at + length text)) mem))
end_text at text mem room =
    let front : List ℕ = take at mem ++ text in
    let size : length front ≡ at + length text =
      omega (arith, length-append (take at mem) text, length-take at mem) in
    ap (λ l. set l (at + length text) 0)
      (sym (append_assoc (take at mem) text (drop (at + length text) mem)))
    ∙ ap (λ n. set (front ++ drop (at + length text) mem) n 0) (sym size)
    ∙ set-after front (drop (at + length text) mem) 0
        (omega (arith, length-drop (at + length text) mem))
    ∙ append_assoc (take at mem) text (0 ∷ drop 1 (drop (at + length text) mem))
    ∙ ap (λ l. take at mem ++ (text ++ (0 ∷ l))) (drop-drop (at + length text) mem)

-- The memory after a text went to a place with a byte to spare: the text, a NUL, and the rest as
-- it was.
abbrev pub with_text : ℕ → List ℕ → List ℕ → List ℕ
with_text at text mem = take at mem ++ (text ++ (0 ∷ drop (suc (at + length text)) mem))

-- `buff_addb` appends a text that leaves room for a NUL, ends it with one, and changes no other
-- byte.
buff_addb_lem :
    (mem : List ℕ) (buff : ℕ) (src : List ℕ)
    → buff + length src < length mem
    → length src ≢ 0
    → buff_addb mem buff src ≡ some (with_text buff src mem, buff + length src)
unfolding buff_addb put_bytes
buff_addb_lem mem buff src room some_src =
    let inside : length (take buff mem ++ (src ++ drop (buff + length src) mem)) ≡ length mem =
      omega (
        arith,
        length-append (take buff mem) (src ++ drop (buff + length src) mem),
        length-take buff mem,
        length-append src (drop (buff + length src) mem),
        length-drop (buff + length src) mem,
      ) in
    ground (arith, room, some_src, inside, end_text buff src mem room)

take-last :
    (n : ℕ) (xs : List ℕ) → suc n ≤ length xs → take (suc n) xs ≡ take n xs ++ (get_or xs n 0 ∷ [])
take-last n [] h = absurd (omega arith)
take-last zero (x ∷ xs) h = refl
take-last (suc n) (x ∷ xs) h = ap (◌∷◌ x) (take-last n xs (omega arith))

drop_all : (n : ℕ) (xs : List ℕ) → length xs ≤ n → drop n xs ≡ []
drop_all zero [] h = refl
drop_all zero (x ∷ xs) h = absurd (omega arith)
drop_all (suc n) [] h = refl
drop_all (suc n) (x ∷ xs) h = drop_all n xs (omega arith)

-- The bytes that are copied of a text that does not fit.
chosen :
    (avail : ℕ) (src : List ℕ)
    → 0 < avail
    → avail ≤ length src
    → (if ltb avail (length src) then take avail src else src)
      ≡ take (avail - 1) src ++ (get_or src (avail - 1) 0 ∷ [])
chosen zero src h long = absurd (omega arith)
chosen (suc n) src h long =
    let one_less : suc n - 1 ≡ n = omega arith in
    let all : (if ltb (suc n) (length src) then take (suc n) src else src) ≡ take (suc n) src =
      ground (arith, take_all (suc n) src, long) in
    rw one_less (all ∙ take-last n src long)

cut_text :
    (buff b : ℕ) (text mem : List ℕ)
    → suc (buff + length text) ≡ length mem
    → set (take buff mem ++ ((text ++ (b ∷ [])) ++ [])) (buff + length text) 0
      ≡ take buff mem ++ (text ++ (0 ∷ []))
cut_text buff b text mem size =
    let front : List ℕ = take buff mem ++ text in
    let at_end : length front ≡ buff + length text =
      omega (arith, length-append (take buff mem) text, length-take buff mem, size) in
    ap (λ l. set (take buff mem ++ l) (buff + length text) 0) (append-nil (text ++ (b ∷ [])))
    ∙ ap (λ l. set l (buff + length text) 0) (sym (append_assoc (take buff mem) text (b ∷ [])))
    ∙ ap (λ n. set (front ++ (b ∷ [])) n 0) (sym at_end)
    ∙ set-after front (b ∷ []) 0 (omega arith)
    ∙ append_assoc (take buff mem) text (0 ∷ [])

put-cut :
    (buff b : ℕ) (text mem : List ℕ)
    → suc (buff + length text) ≡ length mem
    → put_bytes mem buff (text ++ (b ∷ [])) ≡ some (take buff mem ++ (text ++ (0 ∷ [])), length mem)
unfolding put_bytes
put-cut buff b text mem size =
    let bytes : List ℕ = text ++ (b ∷ []) in
    let end_is : buff + length bytes ≡ length mem =
      omega (arith, size, length-append text (b ∷ [])) in
    let nothing : drop (length mem) mem ≡ [] = drop_all (length mem) mem (omega arith) in
    let last_is : length mem - 1 ≡ buff + length text = omega (arith, size) in
    let inside : length (take buff mem ++ (bytes ++ [])) ≡ length mem = omega (
      arith,
      length-append (take buff mem) (bytes ++ []),
      length-append bytes [],
      length-take buff mem,
      end_is,
    ) in
    ground (arith, end_is, nothing, last_is, inside, cut_text buff b text mem size)

-- A text that does not fit is cut to what leaves room for a NUL, which is the buffer's last byte.
pub buff_addb-cut :
    (mem : List ℕ) (buff : ℕ) (src : List ℕ)
    → buff < length mem
    → length mem ≤ buff + length src
    → buff_addb mem buff src
      ≡ some (take buff mem ++ (take (length mem - buff - 1) src ++ (0 ∷ [])), length mem)
unfolding buff_addb
buff_addb-cut mem buff src room long =
    let text : List ℕ = take (length mem - buff - 1) src in
    let last : ℕ = get_or src (length mem - buff - 1) 0 in
    let picked : (if ltb (length mem - buff) (length src)
          then take (length mem - buff) src
          else src)
        ≡ text ++ (last ∷ []) =
      chosen (length mem - buff) src (omega arith) (omega arith) in
    let size : suc (buff + length text) ≡ length mem =
      omega (arith, length-take (length mem - buff - 1) src) in
    let picked_size : buff + length (text ++ (last ∷ [])) ≡ length mem =
      omega (arith, size, length-append text (last ∷ [])) in
    let runs : buff_addb mem buff src
        ≡ put_bytes mem buff
            (if ltb (length mem - buff) (length src) then take (length mem - buff) src else src) =
      ground (arith, room, long) in
    runs ∙ ap (put_bytes mem buff) picked ∙ put-cut buff last text mem size
