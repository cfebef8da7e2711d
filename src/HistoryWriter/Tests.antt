-- ===== src/HistoryWriter/Tests.antt =====
-- A run of the history writer.
use exchange_server.Base.{List, [], ◌∷◌}
use exchange_server.Text.{codes, text_eq}
use exchange_server.HistoryWriter.{HistoryRecord}

abbrev calls : List HistoryRecord
calls =
    record { type = 1; hash = 3; sql = codes "a" }
    ∷ record { type = 2; hash = 3; sql = codes "b" }
    ∷ record { type = 1; hash = 3; sql = codes "c" }
    ∷ []
