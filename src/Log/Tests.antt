-- ===== src/Log/Tests.antt =====
-- Log output at work: a client whose log file has grown too large.
use mavcam.Prelude.{◌≡◌, refl, ◌+◌, true, some, [], ◌∷◌, ◌++◌, ◌&&◌, map, if◌then◌else◌}
use mavcam.Log.{
  Level, Message, Output, LogFile, console_text, client_line, server_line, log_all, too_large,
  client_init_log, server_init_log, max_log_file_size,
}
use mavcam.Log.Delivery.{messages_are_delivered}

abbrev hello : Message
hello = record {
  level = Level.info;
  text = "hello";
  file = "main.cpp";
  line = 7;
  time = "13:02:03";
  time_of_12 = "01:02:03";
  milliseconds = 42;
}

abbrev before : Output
before = record { console = []; log_file = "old\n" ∷ [] }

abbrev grown : LogFile
grown = record { file_size = some (max_log_file_size + 1); opens = true; open_error = hello }

hello_line : client_line hello ≡ "[01:02:03.042|Info ] hello\n"
unfolding client_line
hello_line = refl

messages_are_delivered_example :
    let (client, c) = client_init_log "/tmp/" grown before in
    let (server, s) = server_init_log "/tmp/" grown before in
    ((log_all client (hello ∷ []) c).console
      ≡ []
        ++ (if grown.opens then [] else console_text hello ∷ [])
        ++ map console_text (hello ∷ []))
    × ((log_all client (hello ∷ []) c).log_file
        ≡ (if grown.opens && too_large grown.file_size then [] else before.log_file)
          ++ (if grown.opens then map client_line (hello ∷ []) else []))
    × ((log_all server (hello ∷ []) s).console
        ≡ []
          ++ (if grown.opens then [] else console_text hello ∷ [])
          ++ map console_text (hello ∷ []))
    × ((log_all server (hello ∷ []) s).log_file
        ≡ (if grown.opens then [] else before.log_file)
          ++ (if grown.opens then map server_line (hello ∷ []) else []))
messages_are_delivered_example = messages_are_delivered "/tmp/" grown (hello ∷ []) before refl
