-- ===== src/Cmd/Safe.antt =====
-- The getters over the three large blocks, over any registers, counts and pointers.
use haier_controller.Prelude.{ℕ, ◌≡◌, true, ◌!=◌, List, length}
use haier_controller.Floats.{Floats}
use haier_controller.Cmd.R101.Safe as Safe101
use haier_controller.Cmd.R141.Safe as Safe141
use haier_controller.Cmd.R241.Safe as Safe241

-- Over any registers of the sizes of the three large blocks, the getters, called with the count
-- of their block and a pointer that is not NULL where they take one, return a value, with
-- success, without an access outside the array.
pub getters-Answered :
    (F : Floats) (r101 r141 r241 : List ℕ)
    → length r101 ≡ 6
    → length r141 ≡ 16
    → length r241 ≡ 22
    → Safe101.Answered F r101 × Safe141.Answered F r141 × Safe241.Answered F r241
getters-Answered F r101 r141 r241 six sixteen twenty_two = (
  Safe101.r101-Answered F r101 six,
  Safe141.r141-Answered F r141 sixteen,
  Safe241.r241-Answered F r241 twenty_two,
)

-- With another count than that of their block the getters over the three large blocks return
-- -EINVAL, or `invalid` where they return an enumerator, and leave what the pointer refers to
-- alone; with the right count and a NULL pointer those that take one return -EINVAL; none of them
-- reads the array.
pub getters-TurnedDown :
    (F : Floats) (regs : List ℕ) (n101 n141 n241 : ℕ)
    → (n101 != 6) ≡ true
    → (n141 != 16) ≡ true
    → (n241 != 22) ≡ true
    → (Safe101.TurnedDown F regs n101 × Safe101.NullRefused F regs)
      × (Safe141.TurnedDown F regs n141 × Safe141.NullRefused F regs)
      × (Safe241.TurnedDown F regs n241 × Safe241.NullRefused F regs)
getters-TurnedDown F regs n101 n141 n241 h101 h141 h241 = (
  Safe101.r101-TurnedDown F regs n101 h101,
  Safe141.r141-TurnedDown F regs n141 h141,
  Safe241.r241-TurnedDown F regs n241 h241,
)
