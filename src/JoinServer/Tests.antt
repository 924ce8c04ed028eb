-- ===== src/JoinServer/Tests.antt =====
-- Sessions of HW_11/lib/server.cpp, where every id is written back as the same text.
use cplus_plus_developer_pro.Prelude.{◌≡◌, ◌<◌, refl, [], ◌∷◌, ◌++◌, none, ◌^◌, arith}
use cplus_plus_developer_pro.Prelude.Int.{pos}
use cplus_plus_developer_pro.Prelude.Text.{bytes, text_eq}
use cplus_plus_developer_pro.Database.{Database, Decimal, insert}
use cplus_plus_developer_pro.JoinServer.{
  Session, number, process_command, receive, handle, do_read, first_line, line, read_word, skip_ws,
  span,
}
use cplus_plus_developer_pro.JoinServer.Commands.{answer, insert_text, process_command-insert}
use cplus_plus_developer_pro.JoinServer.Chunks.{receive-append}

abbrev decimal : Decimal
decimal = record { to_string = λ i. bytes "5"; from_chars = λ s. none }

abbrev empty_db : Database
empty_db = record { table_a = []; table_b = [] }

abbrev one_row : Database
one_row = record { table_a = (pos 5, bytes "big frank") ∷ []; table_b = [] }

small : number 0 (bytes "05") < 2 ^ 31
unfolding number
small = omega arith

process_command-insert_example :
    process_command decimal (insert_text (bytes "A") (bytes "05 big frank" ++ 10 ∷ [])) one_row
    ≡ answer decimal
        (pos (number 0 (bytes "05")))
        (insert (bytes "A") (pos (number 0 (bytes "05"))) (bytes "big frank") one_row)
process_command-insert_example =
    process_command-insert decimal one_row (bytes "A") (bytes "05") 98 (bytes "ig frank")
      (refl, (refl, tt)) (refl, (refl, (refl, tt))) small refl
      (refl, (refl, (refl, (refl, (refl, (refl, (refl, (refl, (refl, tt)))))))))

abbrev idle : Session
idle = record { buffer = []; database = empty_db; sent = [] }

receive-append_example :
    receive decimal (bytes "t A 5 x" ++ 10 ∷ []) (receive decimal (bytes "INSER") idle)
    ≡ receive decimal (bytes "INSERt A 5 x" ++ 10 ∷ []) idle
receive-append_example = receive-append decimal (bytes "INSER") (bytes "t A 5 x" ++ 10 ∷ []) idle

-- Two lines in three pieces; neither is a command.
two_lines :
    receive decimal
      (bytes "T" ++ 10 ∷ bytes "IN")
      (receive decimal (10 ∷ bytes "A ") (receive decimal (bytes " INSER") idle))
    ≡ record {
      buffer = bytes "IN";
      database = empty_db;
      sent = line (bytes "ERR unknown command") ∷ line (bytes "ERR unknown command") ∷ [];
    }
unfolding receive do_read handle first_line process_command read_word skip_ws span text_eq
two_lines = refl
