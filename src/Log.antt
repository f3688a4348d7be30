-- ===== src/Log.antt =====
-- Log output: LogDetailed and set_color of src/base/log.h and src/base/log.cpp on Linux, the log files of
-- src/mav_client/mav_client_bin.cpp and src/mav_server/mav_server_bin.cpp, and create_folder_if_not_exit
-- of src/base/file_operation.cpp. The clock is a parameter: the text of a time and its milliseconds.
-- MAVSDK's own messages go to the client's file in the same way, and are left out.
mod Delivery
mod Tests
use mavcam.Prelude.{
  ℕ, ◌*◌, Bool, true, false, ◌&&◌, Option, none, some, String, List, [], ◌∷◌, ◌++◌, ltb, str_eq,
  if◌then◌else◌,
}
use mavcam.Prelude.Text.{append_text, decimal}

pub data Level : Type 0 where
  debug info warn err : Level

-- A message, where it was logged, and when: the time of day by a clock of 24 hours and by one of 12.
pub record Message : Type 0 where
  pub level : Level
  pub text : String
  pub file : String
  pub line : ℕ
  pub time : String
  pub time_of_12 : String
  pub milliseconds : ℕ

-- What is written outside: the standard output and the open log file, oldest first.
pub record Output : Type 0 where
  pub console : List String
  pub log_file : List String

-- A callback answers whether the message is to be printed no more.
abbrev pub Callback : Type 0
Callback = Message → Output → Bool × Output

abbrev pub joined : List String → String
joined [] = ""
joined (text ∷ texts) = append_text text (joined texts)

unfoldable pub color_code : Level → String
color_code Level.debug = "\u{1b}[32m"
color_code Level.info = "\u{1b}[34m"
color_code Level.warn = "\u{1b}[33m"
color_code Level.err = "\u{1b}[31m"

unfoldable pub level_text : Level → String
level_text Level.debug = "|Debug]"
level_text Level.info = "|Info ]"
level_text Level.warn = "|Warn ]"
level_text Level.err = "|Error]"

-- `std::setw(3) << std::setfill('0')`
unfoldable pub padded3 : ℕ → String
unfolding decimal
padded3 n = append_text (if ltb n 10 then "00" else if ltb n 100 then "0" else "") (decimal n)

unfoldable pub console_text : Message → String
unfolding color_code level_text padded3 decimal
console_text m = joined (
    color_code m.level
    ∷ "["
    ∷ m.time
    ∷ "."
    ∷ padded3 m.milliseconds
    ∷ level_text m.level
    ∷ " "
    ∷ "\u{1b}[0m"
    ∷ m.text
    ∷ " ("
    ∷ m.file
    ∷ ":"
    ∷ decimal m.line
    ∷ ")\n"
    ∷ [])

-- ~LogDetailed
unfoldable pub log_message : Option Callback → Message → Output → Output
unfolding console_text
log_message none m o = record o { console = o.console ++ console_text m ∷ [] }
log_message (some callback) m o =
    let (handled, o') = callback m o in
    if handled then o' else record o' { console = o'.console ++ console_text m ∷ [] }

-- The two programs write their files in two formats.
unfoldable pub client_line : Message → String
unfolding level_text padded3
client_line m = joined (
    "["
    ∷ m.time_of_12
    ∷ "."
    ∷ padded3 m.milliseconds
    ∷ level_text m.level
    ∷ " "
    ∷ m.text
    ∷ "\n"
    ∷ [])

unfoldable pub server_line : Message → String
unfolding level_text
server_line m = joined ("[" ∷ m.time_of_12 ∷ level_text m.level ∷ "  " ∷ m.text ∷ "\n" ∷ [])

-- The callback of a log file; `good` says whether the stream can be written.
unfoldable pub write_line : Bool → (Message → String) → Callback
write_line good line m o =
    (false, if good then record o { log_file = o.log_file ++ line m ∷ [] } else o)

-- What init_log meets: the size of a log file that exists and can be asked for it, whether the file can be
-- opened for writing, and the message that it logs if it cannot.
pub record LogFile : Type 0 where
  pub file_size : Option ℕ
  pub opens : Bool
  pub open_error : Message

abbrev pub max_log_file_size : ℕ
max_log_file_size = 5 * 1024 * 1024

-- `!ec && sz > kMaxLogFileSize`
abbrev pub too_large : Option ℕ → Bool
too_large none = false
too_large (some n) = ltb max_log_file_size n

abbrev pub reported : LogFile → Output → Output
reported f o =
    if f.opens then o else record o { console = o.console ++ console_text f.open_error ∷ [] }

abbrev pub emptied : Bool → Output → Output
emptied test o = if test then record o { log_file = [] } else o

-- init_log of the client: the file is emptied where it is too large, and then appended to.
unfoldable pub client_init_log : String → LogFile → Output → Option Callback × Output
unfolding client_line write_line console_text
client_init_log log_path f o = if str_eq log_path "" then (none, o) else (
  if f.opens then some (write_line true client_line) else none,
  reported f (emptied (f.opens && too_large f.file_size) o),
)

-- init_log of the server: the file is always emptied, where it opens, and the callback is there even
-- where it does not.
unfoldable pub server_init_log : String → LogFile → Output → Option Callback × Output
unfolding server_line write_line console_text
server_init_log log_path f o =
    if str_eq log_path ""
    then (none, o)
    else (some (write_line f.opens server_line), reported f (emptied f.opens o))

-- What stat finds at a path, and whether mkdir makes it.
pub data PathKind : Type 0 where
  missing : Bool → PathKind
  folder other : PathKind

unfoldable pub create_folder_if_not_exit : PathKind → Bool
create_folder_if_not_exit (PathKind.missing made) = made
create_folder_if_not_exit PathKind.folder = true
create_folder_if_not_exit PathKind.other = false

unfoldable pub log_all : Option Callback → List Message → Output → Output
unfolding log_message
log_all callback [] o = o
log_all callback (m ∷ ms) o = log_all callback ms (log_message callback m o)
