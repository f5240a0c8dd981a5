-- ===== src/Tests/Audience.antt =====
-- An airdrop among two viewers and one, and the theorems on airdrops applied to them.
use tachigo.Base.{◌≡◌, List, [], ◌∷◌, arith}
use tachigo.Int.{pos}
use tachigo.Models.{ok}
use tachigo.Effect.Safe.{Safe}
use tachigo.Airdrop.Reading.{AirdropViewer, AirdropRequest}
use tachigo.Airdrop.{distribute_airdrop, execute}
use tachigo.Airdrop.Distribution.{Shared, distribute_airdrop-Shared}
use tachigo.Airdrop.Execution.{Executed, execute-Executed}
use tachigo.Tests.Viewers.{viewed, viewed-IsAudited}

abbrev audience : List AirdropViewer
audience =
    record { user_id = 1; accumulated_seconds = pos 90; share = pos 0; remainder = pos 0 }
    ∷ record { user_id = 2; accumulated_seconds = pos 60; share = pos 0; remainder = pos 0 }
    ∷ []

distribute_airdrop-Shared_example :
    (out : List AirdropViewer) × (distribute_airdrop audience (pos 11) ≡ ok out)
    × Shared 11 audience out
distribute_airdrop-Shared_example =
    distribute_airdrop-Shared 11 audience (omega arith) (omega arith) (omega arith) (omega arith)
      (omega arith)

abbrev request : AirdropRequest
request = record { channel_id = 7; amount = pos 10; note = "thanks" }

execute-Executed_example :
    Safe (λ db'. db' ≡ viewed) viewed (execute request) (Executed request viewed)
execute-Executed_example =
    execute-Executed request viewed viewed-IsAudited
      (record { watched = omega arith; amount_fits = omega arith; products_fit = omega arith })
