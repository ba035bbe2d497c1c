-- ===== src/Tests/Database.antt =====
-- The theorems on src/database.cpp, run on a small server.
use open_workload_scheduler.Base.{String, true, Option, some, List, [], ◌∷◌, ◌++◌, ◌≡◌, refl}
use open_workload_scheduler.Effect.{returned, thrown, ex_processing}
use open_workload_scheduler.Platform.{Call, connect, query, close}
use open_workload_scheduler.Database.{atomic_execute, standalone_execute, mysql_query, executed}
use open_workload_scheduler.Database.Transactions.{
  sent, start_text, standalone_execute-refused, standalone_execute-Accepted,
}
use open_workload_scheduler.Tests.Data.{platform}

abbrev statements : List String
statements = "INSERT 1;" ∷ "INSERT 2;" ∷ []

abbrev name : Option String
name = some "prod"

abbrev behind : List Call
behind = (standalone_execute platform statements name []).1

standalone_execute-refused_example :
    standalone_execute platform (("INSERT 1;" ∷ []) ++ "BAD;" ∷ "INSERT 2;" ∷ []) name [] ≡ (
      thrown (ex_processing "syntax error"),
      close ∷ query "BAD;" ∷ sent (start_text ∷ "INSERT 1;" ∷ []) (connect name ∷ []),
    )
unfolding atomic_execute mysql_query executed
standalone_execute-refused_example =
    standalone_execute-refused platform ("INSERT 1;" ∷ []) "BAD;" ("INSERT 2;" ∷ []) "syntax error"
      name [] refl (refl, (refl, tt)) refl

standalone_execute-Accepted_example :
    standalone_execute platform statements name []
    ≡ (returned true, close ∷ query "COMMIT;" ∷ sent (start_text ∷ statements) (connect name ∷ []))
unfolding atomic_execute mysql_query executed
standalone_execute-Accepted_example =
    standalone_execute-Accepted platform statements name [] refl (refl, (refl, (refl, (refl, tt))))
