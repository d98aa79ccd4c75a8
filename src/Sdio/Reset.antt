-- ===== src/Sdio/Reset.antt =====
-- sdio_over_spi_post_hard_reset of transport/sdio_over_spi.c: what brings a chip up after its
-- reset line was pulled. Waiting is left out.
use morse_cli.Base.{ℕ, zero, suc, not, if◌then◌else◌, ℤ, is_zero}

module _ {S : Type 0} (cmd0 cmd63 : S → ℤ × S) (reg_read : ℕ → S → ℤ × S)
    (reg_write : ℕ → ℕ → S → ℤ × S) where
  -- CMD63 and CMD0, `n` times; their results are not looked at.
  unfoldable pub enter_spi : ℕ → S → S
  enter_spi zero s = s
  enter_spi (suc n) s = let (_, s1) = cmd63 s in let (_, s2) = cmd0 s1 in enter_spi n s2

  -- The attempts at the two registers that start the chip. The first attempt's code stands for
  -- what a loop of no rounds would leave: there are three.
  unfoldable pub start_chip : ℤ → ℕ → S → ℤ × S
  start_chip ret zero s = (ret, s)
  start_chip ret (suc attempts) s =
      let (ret1, s1) = reg_write 0x10054050 0xdead s in
      let again = start_chip ret1 attempts s1 in
      let (ret2, s2) = reg_write 0x1005406c 0xe5 s1 in
      let again' = start_chip ret2 attempts s2 in
      if not (is_zero ret1) then again else if not (is_zero ret2) then again' else (ret2, s2)

  unfoldable pub post_hard_reset : S → ℤ × S
  post_hard_reset s =
      let s0 = enter_spi 3 s in
      let (ret1, s1) = reg_read 0x10054d20 s0 in
      let (ret2, s2) = start_chip ret1 3 s1 in
      let (ret3, s3) = reg_write 0x10054d40 0 s2 in
      if not (is_zero ret1)
      then (ret1, s1)
      else if not (is_zero ret2)
      then (ret2, s2)
      else (ret3, s3)
