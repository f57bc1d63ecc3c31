-- ===== src/EstOps/Line/Numeric.antt =====
-- The numbers of a line are read back as they were written.
use mathlib.Core.Path.{◌∙◌}
use fsvs.Prelude.{
  ℕ, ◌%◌, ◌^◌, ◌≤◌, ◌<◌, ◌≡◌, refl, ap, some, [], ◌∷◌, ◌++◌, Bytes, skip_ws, print, padded,
  print_signed, strtoul, arith,
}
use fsvs.Prelude.Numerals.{digit_value, as_ulong, signed_digits}
use fsvs.Prelude.Numerals.Reading.{
  IsEnd, strtoul-print, strtoul-padded, strtoul-zero_padded, strtoul-print_signed,
}
use fsvs.EstOps.Line.{ok}
use fsvs.EstOps.Line.Fields.{
  number, Head, write_head, read_head, LineNumbers, write_numbers, read_numbers,
}

pub space-IsEnd : IsEnd 32
unfolding digit_value
space-IsEnd = refl

skip_ws_twice : (s : Bytes) → skip_ws (skip_ws s) ≡ skip_ws s
unfolding skip_ws
skip_ws_twice [] = refl
skip_ws_twice (c ∷ s) = ground (arith, skip_ws_twice s)

strtoul-skip_ws : (b : ℕ) (s : Bytes) → strtoul b (skip_ws s) ≡ strtoul b s
unfolding strtoul
strtoul-skip_ws b s = ap (signed_digits as_ulong b) (skip_ws_twice s)

abbrev Number : ℕ → ℕ → Bytes → Bytes → Type 0
Number base n s rest = strtoul base s ≡ some (n, rest)

number-Number :
    (base n : ℕ) (s rest : Bytes) → strtoul base s ≡ some (n, rest) → number base s ≡ (n, rest)
unfolding number
number-Number base n s rest h = rw (h, number) refl

-- The ranges of what is written.
pub record FitsHead (h : Head) : Type 0 where
  pub mode : h.mode < 2 ^ 32
  pub ctime : h.ctime < 2 ^ 32
  pub mtime : h.mtime < 2 ^ 32
  pub flags : h.flags < 2 ^ 32

read_head_step :
    (s t1 t2 t3 rest : Bytes) (m c t f : ℕ)
    → strtoul 8 (skip_ws s) ≡ some (m, 32 ∷ t1)
    → number 16 t1 ≡ (c, t2)
    → number 16 t2 ≡ (t, t3)
    → strtoul 16 (skip_ws t3) ≡ some (f, 32 ∷ rest)
    → m < 2 ^ 32
    → f < 2 ^ 32
    → read_head s ≡ ok (record { mode = m; ctime = c; mtime = t; flags = f }, rest)
unfolding read_head
read_head_step s t1 t2 t3 rest m c t f e1 e2 e3 e4 hm hf = rw (e1, e2, e3, e4) (ground arith)

-- The numbers that are written behind a blank, as they are read.
number-print :
    (b n : ℕ) (rest : Bytes)
    → 2 ≤ b
    → b ≤ 16
    → n < 2 ^ 64
    → number b (32 ∷ (print b n ++ 32 ∷ rest)) ≡ (n, 32 ∷ rest)
number-print b n rest h k w = number-Number b n _ _ (strtoul-print b h k n w 32 rest space-IsEnd 1)

number-print_signed :
    (n : ℕ) (rest : Bytes)
    → n < 2 ^ 64
    → number 10 (32 ∷ (print_signed n ++ 32 ∷ rest)) ≡ (n, 32 ∷ rest)
number-print_signed n rest w =
    number-Number 10 n _ _ (strtoul-print_signed n 32 rest 1 w space-IsEnd)

number-time :
    (n : ℕ) (rest : Bytes)
    → n < 2 ^ 32
    → number 16 (padded 32 8 (print 16 (n % 2 ^ 32)) ++ 32 ∷ rest) ≡ (n, 32 ∷ rest)
number-time n rest w =
    number-Number 16 (n % 2 ^ 32) _ _ (
      strtoul-padded 16 (omega arith) (omega arith) (n % 2 ^ 32) (omega arith) 32 rest space-IsEnd 0
        8)
    ∙ ap (λ v. (v, 32 ∷ rest)) (omega arith)

number-blank_time :
    (n : ℕ) (rest : Bytes)
    → n < 2 ^ 32
    → number 16 (32 ∷ (padded 32 8 (print 16 (n % 2 ^ 32)) ++ 32 ∷ rest)) ≡ (n, 32 ∷ rest)
number-blank_time n rest w =
    number-Number 16 (n % 2 ^ 32) _ _ (
      strtoul-padded 16 (omega arith) (omega arith) (n % 2 ^ 32) (omega arith) 32 rest space-IsEnd 1
        8)
    ∙ ap (λ v. (v, 32 ∷ rest)) (omega arith)

pub read_head-write_head :
    (h : Head) (rest : Bytes) → FitsHead h → read_head (write_head h rest) ≡ ok (h, rest)
unfolding write_head
read_head-write_head h rest w =
    read_head_step (write_head h rest) _ _ _ rest h.mode h.ctime h.mtime h.flags
      (strtoul-skip_ws 8 (write_head h rest)
        ∙ strtoul-zero_padded 8 (omega arith) (omega arith) h.mode (omega arith) 32 _ space-IsEnd 7)
      (number-time h.ctime _ w.ctime) (number-blank_time h.mtime _ w.mtime)
      (strtoul-skip_ws 16 _
        ∙ strtoul-print 16 (omega arith) (omega arith) h.flags (omega arith) 32 rest space-IsEnd 1)
      w.mode w.flags

pub record FitsNumbers (n : LineNumbers) : Type 0 where
  pub size : n.size < 2 ^ 64
  pub revision : n.revision < 2 ^ 64
  pub intnum : n.intnum < 2 ^ 32
  pub dev : n.dev < 2 ^ 64
  pub ino : n.ino < 2 ^ 64
  pub parent : n.parent < 2 ^ 64
  pub count : n.count < 2 ^ 32
  pub uid : n.uid < 2 ^ 32
  pub gid : n.gid < 2 ^ 32

read_numbers_step :
    (s s1 s2 s3 s4 s5 s6 s7 s8 rest : Bytes) (n : LineNumbers)
    → number 10 s ≡ (n.size, s1)
    → number 10 s1 ≡ (n.revision, s2)
    → number 10 s2 ≡ (n.intnum, s3)
    → number 16 s3 ≡ (n.dev, s4)
    → number 10 s4 ≡ (n.ino, s5)
    → number 10 s5 ≡ (n.parent, s6)
    → number 10 s6 ≡ (n.count, s7)
    → number 10 s7 ≡ (n.uid, s8)
    → strtoul 10 (skip_ws s8) ≡ some (n.gid, rest)
    → FitsNumbers n
    → read_numbers s ≡ ok (n, rest)
unfolding read_numbers
read_numbers_step s s1 s2 s3 s4 s5 s6 s7 s8 rest n e1 e2 e3 e4 e5 e6 e7 e8 e9 w =
    rw (e1, e2, e3, e4, e5, e6, e7, e8, e9) (ground arith)

pub read_numbers-write_numbers :
    (n : LineNumbers) (rest : Bytes)
    → FitsNumbers n
    → read_numbers (write_numbers n rest) ≡ ok (n, 32 ∷ rest)
unfolding write_numbers
read_numbers-write_numbers n rest w =
    read_numbers_step (write_numbers n rest) _ _ _ _ _ _ _ _ (32 ∷ rest) n
      (number-print_signed n.size _ w.size) (number-print_signed n.revision _ w.revision)
      (number-print 10 n.intnum _ (omega arith) (omega arith) (omega arith))
      (number-print 16 n.dev _ (omega arith) (omega arith) w.dev)
      (number-print_signed n.ino _ w.ino) (number-print_signed n.parent _ w.parent)
      (number-print 10 n.count _ (omega arith) (omega arith) (omega arith))
      (number-print 10 n.uid _ (omega arith) (omega arith) (omega arith))
      (strtoul-skip_ws 10 _
        ∙ strtoul-print 10 (omega arith) (omega arith) n.gid (omega arith) 32 rest space-IsEnd 1)
      w
