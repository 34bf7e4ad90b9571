-- ===== src/Driver/Fits.antt =====
-- The range of the words of a frame of the block from 241 on.
use haier_controller.Prelude.{ℕ, ◌+◌, ◌*◌, ◌<◌, ℤ, arith}
use haier_controller.Cmd.Bytes.{twelve, IsSigned12, twelve-lt}
use haier_controller.Cmd.Fields.{nib, word, nibbles-lt, low-lt}
use haier_controller.Cmd.R241.Frame.{Frame, IsFrame, words}
use haier_controller.Driver.Registers.Laws.{IsWords}

word-lt : (hi lo : ℕ) → hi < 256 → lo < 256 → word hi lo < 65536
word-lt hi lo p q = omega arith

nibble_word-lt : (x y : ℤ) → IsSigned12 x → IsSigned12 y → nib x * 4096 + twelve y < 65536
nibble_word-lt x y p q = omega (arith, twelve-lt x p, twelve-lt y q)

pub words-IsWords : (f : Frame) → IsFrame f → IsWords (words f)
words-IsWords f ok = (
  word-lt _ _ (sp 0) ok.last_error,
  (
    word-lt _ _ (sp 1) (sp 2),
    (
      word-lt _ _ (sp 3) ok.fact,
      (
        word-lt _ _ ok.fset ok.fan0,
        (
          word-lt _ _ ok.fan1 (sp 4),
          (
            word-lt _ _ ok.eev ok.pd_set,
            (
              word-lt _ _ ok.pd_act
                  (nibbles-lt f.tsat_pd_act f.tsat_pd_target ok.tsat_pd_act ok.tsat_pd_target),
              (
                word-lt _ _ (low-lt f.tsat_pd_target) (low-lt f.tsat_pd_act),
                (
                  word-lt _ _ ok.ps_set ok.ps_act,
                  (
                    word-lt _ _
                        (nibbles-lt f.tsat_ps_act f.tsat_ps_target ok.tsat_ps_act ok.tsat_ps_target)
                        (low-lt f.tsat_ps_target),
                    (
                      word-lt _ _ (low-lt f.tsat_ps_act) (nibbles-lt f.ts f.td ok.ts ok.td),
                      (
                        word-lt _ _ (low-lt f.td) (low-lt f.ts),
                        (
                          nibble_word-lt f.tdef f.tao ok.tdef ok.tao,
                          (
                            word-lt _ _ (low-lt f.tdef) (sp 5),
                            (
                              word-lt _ _ (sp 6) ok.comp_temp,
                              (
                                word-lt _ _ ok.current ok.voltage,
                                (
                                  word-lt _ _ (sp 7) (sp 8),
                                  (
                                    word-lt _ _ (sp 9) (sp 10),
                                    (
                                      word-lt _ _ ok.version (sp 11),
                                      (
                                        word-lt _ _ ok.err1 ok.err2,
                                        (
                                          word-lt _ _ ok.err3 (sp 12),
                                          (word-lt _ _ (sp 13) (sp 14), tt),
                                        ),
                                      ),
                                    ),
                                  ),
                                ),
                              ),
                            ),
                          ),
                        ),
                      ),
                    ),
                  ),
                ),
              ),
            ),
          ),
        ),
      ),
    ),
  ),
)
  where
    sp : (i : ℕ) → f.spare i < 256
    sp = ok.spare
