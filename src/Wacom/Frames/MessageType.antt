-- ===== src/Wacom/Frames/MessageType.antt =====
-- `enum class MessageType`
use teraguchi.Common.{ℕ}

abbrev pub device : ℕ
device = 1

abbrev pub descriptor : ℕ
descriptor = 2

abbrev pub input : ℕ
input = 3

abbrev pub get_report : ℕ
get_report = 4

abbrev pub get_report_reply : ℕ
get_report_reply = 5

abbrev pub set_report : ℕ
set_report = 6

abbrev pub set_report_reply : ℕ
set_report_reply = 7

abbrev pub output : ℕ
output = 8

abbrev pub detach : ℕ
detach = 9
