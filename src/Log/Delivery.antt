-- ===== src/Log/Delivery.antt =====
-- Where the messages of the two programs go.
use mathlib.Core.List.{append_assoc, append-nil}
use mavcam.Prelude.{
  ◌≡◌, ◌∙◌, refl, sym, ap, Bool, true, false, none, some, String, List, [], ◌∷◌, ◌++◌, ◌&&◌, map,
  str_eq, if◌then◌else◌,
}
use mavcam.Log.{
  Message, Output, LogFile, console_text, client_line, server_line, write_line, log_message,
  log_all, client_init_log, server_init_log, too_large, reported, emptied,
}

-- The output after messages that went to the console, and to the file where `line` writes them.
abbrev pub Delivered : Bool → (Message → String) → List Message → Output → Output → Type 0
Delivered filed line ms o o' =
    (o'.console ≡ o.console ++ map console_text ms)
    × (o'.log_file ≡ o.log_file ++ (if filed then map line ms else []))

unlogged :
    (line : Message → String) (ms : List Message) (o : Output)
    → Delivered false line ms o (log_all none ms o)
unfolding log_all log_message
unlogged line [] o = (sym (append-nil o.console), sym (append-nil o.log_file))
unlogged line (m ∷ ms) o =
    let o' = log_message none m o in
    let (console, file) = unlogged line ms o' in
    (console ∙ append_assoc o.console (console_text m ∷ []) (map console_text ms), file)

logged :
    (good : Bool) (line : Message → String) (ms : List Message) (o : Output)
    → Delivered good line ms o (log_all (some (write_line good line)) ms o)
unfolding log_all log_message write_line
logged true line [] o = (sym (append-nil o.console), sym (append-nil o.log_file))
logged false line [] o = (sym (append-nil o.console), sym (append-nil o.log_file))
logged true line (m ∷ ms) o =
    let o' = log_message (some (write_line true line)) m o in
    let (console, file) = logged true line ms o' in
    (
      console ∙ append_assoc o.console (console_text m ∷ []) (map console_text ms),
      file ∙ append_assoc o.log_file (line m ∷ []) (map line ms),
    )
logged false line (m ∷ ms) o =
    let o' = log_message (some (write_line false line)) m o in
    let (console, file) = logged false line ms o' in
    (console ∙ append_assoc o.console (console_text m ∷ []) (map console_text ms), file)

-- What init_log leaves behind, before the first message.
start_output :
    (f : LogFile) (test : Bool) (o : Output)
    → ((reported f (emptied test o)).console
        ≡ o.console ++ (if f.opens then [] else console_text f.open_error ∷ []))
      × ((reported f (emptied test o)).log_file ≡ (if test then [] else o.log_file))
start_output f test o = starts f.opens test
  where
    starts :
        (opens test : Bool)
        → ((reported (record f { opens = opens }) (emptied test o)).console
            ≡ o.console ++ (if opens then [] else console_text f.open_error ∷ []))
          × ((reported (record f { opens = opens }) (emptied test o)).log_file
              ≡ (if test then [] else o.log_file))
    starts true true = (sym (append-nil o.console), refl)
    starts true false = (sym (append-nil o.console), refl)
    starts false true = (refl, refl)
    starts false false = (refl, refl)

client_delivers :
    (opens : Bool) (ms : List Message) (o : Output)
    → Delivered opens client_line ms o
        (log_all (if opens then some (write_line true client_line) else none) ms o)
client_delivers true ms o = logged true client_line ms o
client_delivers false ms o = unlogged client_line ms o

-- With a log path, every message of both programs goes to the console, once and in order, after the error
-- of a log file that does not open. It also goes to the program's log file, in the same order, if the
-- file opens. What the file held before is kept by the client unless it was more than five megabytes and
-- opens, and is dropped by the server if the file opens.
pub messages_are_delivered :
    (log_path : String) (f : LogFile) (ms : List Message) (o : Output)
    → str_eq log_path "" ≡ false
    → let (client, c) = client_init_log log_path f o in
      let (server, s) = server_init_log log_path f o in
      let console =
        o.console
        ++ (if f.opens then [] else console_text f.open_error ∷ [])
        ++ map console_text ms in
      ((log_all client ms c).console ≡ console)
      × ((log_all client ms c).log_file
          ≡ (if f.opens && too_large f.file_size then [] else o.log_file)
            ++ (if f.opens then map client_line ms else []))
      × ((log_all server ms s).console ≡ console)
      × ((log_all server ms s).log_file
          ≡ (if f.opens then [] else o.log_file) ++ (if f.opens then map server_line ms else []))
unfolding client_init_log server_init_log
messages_are_delivered log_path f ms o given =
    let large = f.opens && too_large f.file_size in
    let kept = reported f (emptied large o) in
    let fresh = reported f (emptied f.opens o) in
    let appender = if f.opens then some (write_line true client_line) else none in
    let writer = some (write_line f.opens server_line) in
    let (kept_console, kept_file) = start_output f large o in
    let (fresh_console, fresh_file) = start_output f f.opens o in
    let (console, file) = client_delivers f.opens ms kept in
    let (console', file') = logged f.opens server_line ms fresh in
    let client : client_init_log log_path f o ≡ (appender, kept) =
      ap (λ test. if test then (none, o) else (appender, kept)) given in
    let server : server_init_log log_path f o ≡ (writer, fresh) =
      ap (λ test. if test then (none, o) else (writer, fresh)) given in
    (
      ap (λ p. (log_all p.0 ms p.1).console) client
          ∙ console
          ∙ ap (λ start. start ++ map console_text ms) kept_console,
      ap (λ p. (log_all p.0 ms p.1).log_file) client
          ∙ file
          ∙ ap (λ start. start ++ (if f.opens then map client_line ms else [])) kept_file,
      ap (λ p. (log_all p.0 ms p.1).console) server
          ∙ console'
          ∙ ap (λ start. start ++ map console_text ms) fresh_console,
      ap (λ p. (log_all p.0 ms p.1).log_file) server
          ∙ file'
          ∙ ap (λ start. start ++ (if f.opens then map server_line ms else [])) fresh_file,
    )
