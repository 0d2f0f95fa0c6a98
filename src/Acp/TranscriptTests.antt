-- ===== src/Acp/TranscriptTests.antt =====
-- adapters/acp/role-transcripts.ts, at a short conversation of a role.
use Prim.Native.String.{String}
use d3r.Base.{ℕ, ◌≡◌, refl, false, true, List, [], ◌∷◌, ◌++◌, some}
use d3r.Acp.Transcript.{
  Chunk, ChunkKind, ToolStatus, ToolCall, RoleTranscript, is_terminal_tool_status,
  create_role_transcript, append_role_chunk, Event, chunk, update, run,
}
use d3r.Acp.Shown.{IsBounded, run-IsBounded, run-terminal}
use d3r.Acp.Unabridged.{text_of, said, run-whole}

abbrev newer : ℕ → ℕ → ℕ
newer old new = new

abbrev tool : ToolCall ℕ
tool = record { status = some ToolStatus.in_progress; fields = 0 }

abbrev says : String → ChunkKind → List ℕ → Chunk
says id kind words = record { message_id = id; kind = kind; text = words }

abbrev done : ToolCall ℕ
done = record { status = some ToolStatus.completed; fields = 1 }

abbrev events : List (Event ℕ)
events =
    chunk (says "m" ChunkKind.thought (1 ∷ 2 ∷ []))
    ∷ chunk (says "m" ChunkKind.text_chunk (3 ∷ []))
    ∷ chunk (says "m" ChunkKind.thought (4 ∷ []))
    ∷ chunk (says "n" ChunkKind.thought [])
    ∷ update done
    ∷ update tool
    ∷ []

abbrev shown : RoleTranscript ℕ
shown = run newer events (create_role_transcript tool)

shown_blocks :
    shown.blocks
    ≡ says "m" ChunkKind.thought (1 ∷ 2 ∷ 4 ∷ []) ∷ says "m" ChunkKind.text_chunk (3 ∷ []) ∷ []
unfolding run create_role_transcript
shown_blocks = refl

-- Two characters are left.
abbrev nearly_full : RoleTranscript ℕ
nearly_full = record { tool = tool; blocks = []; characters = 65_534; truncated = false }

cut : append_role_chunk (says "m" ChunkKind.thought (1 ∷ 2 ∷ 3 ∷ [])) nearly_full ≡ (
  true,
  record {
    tool = tool;
    blocks = says "m" ChunkKind.thought (1 ∷ 2 ∷ []) ∷ [];
    characters = 65_536;
    truncated = true;
  },
)
unfolding append_role_chunk
cut = refl

run-IsBounded_example : IsBounded (run newer events (create_role_transcript tool))
run-IsBounded_example = run-IsBounded newer tool events

finished : is_terminal_tool_status shown.tool.status ≡ true
unfolding run create_role_transcript
finished = refl

run-terminal_example :
    is_terminal_tool_status ((run newer (update tool ∷ []) shown).tool.status) ≡ true
run-terminal_example = run-terminal newer (update tool ∷ []) shown finished

untruncated : shown.truncated ≡ false
unfolding run create_role_transcript
untruncated = refl

run-whole_example :
    ((create_role_transcript tool).truncated ≡ false)
    × (text_of (says "m" ChunkKind.thought []) shown.blocks
        ≡ text_of (says "m" ChunkKind.thought []) ((create_role_transcript tool).blocks)
          ++ said (says "m" ChunkKind.thought []) events)
run-whole_example =
    run-whole newer (says "m" ChunkKind.thought []) events (create_role_transcript tool) untruncated
