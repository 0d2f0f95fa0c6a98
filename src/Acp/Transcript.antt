-- ===== src/Acp/Transcript.antt =====
-- adapters/acp/role-transcripts.ts: the bounded text of a role that is shown with its tool call. A text
-- is a list of UTF-16 units, which `slice` and `length` go by.
use Prim.Native.String.{String}
use d3r.Base.{
  ℕ, ◌+◌, ◌-◌, Bool, true, false, not, ◌&&◌, ◌||◌, List, [], ◌∷◌, ◌++◌, Option, none, some, str_eq,
  any, length, take, ◌==◌, if◌then◌else◌,
}

abbrev pub character_limit : ℕ
character_limit = 65_536

abbrev pub block_limit : ℕ
block_limit = 128

pub data ChunkKind : Type 0 where
  text_chunk thought : ChunkKind

pub record Chunk : Type 0 where
  pub message_id : String
  pub kind : ChunkKind
  pub text : List ℕ

pub data ToolStatus : Type 0 where
  pending in_progress completed failed : ToolStatus

-- The other fields of a tool call are those of the ACP library.
pub record ToolCall (F : Type 0) : Type 0 where
  pub status : Option ToolStatus
  pub fields : F

pub record RoleTranscript (F : Type 0) : Type 0 where
  pub tool : ToolCall F
  pub blocks : List Chunk
  pub characters : ℕ
  pub truncated : Bool

abbrev pub same_kind : ChunkKind → ChunkKind → Bool
same_kind ChunkKind.thought ChunkKind.thought = true
same_kind ChunkKind.text_chunk ChunkKind.text_chunk = true
same_kind _ _ = false

-- The chunks of one message and kind make one block.
abbrev pub same_block : Chunk → Chunk → Bool
same_block c row = str_eq row.message_id c.message_id && same_kind row.kind c.kind

-- `block.text += text`, in the block of the chunk, or in a new one.
abbrev pub add_text : Chunk → List ℕ → List Chunk → List Chunk
add_text c text [] = record c { text = text } ∷ []
add_text c text (row ∷ rows) =
    let rest = add_text c text rows in
    if same_block c row then record row { text = row.text ++ text } ∷ rows else row ∷ rest

abbrev pub is_nil : {A : Type 0} → List A → Bool
is_nil [] = true
is_nil (x ∷ xs) = false

abbrev pub is_terminal_tool_status : Option ToolStatus → Bool
is_terminal_tool_status (some ToolStatus.completed) = true
is_terminal_tool_status (some ToolStatus.failed) = true
is_terminal_tool_status _ = false

abbrev pub is_progress : Option ToolStatus → Bool
is_progress (some ToolStatus.pending) = true
is_progress (some ToolStatus.in_progress) = true
is_progress _ = false

module _ {F : Type 0} where
  unfoldable pub create_role_transcript : ToolCall F → RoleTranscript F
  create_role_transcript tool = record {
    tool = tool;
    blocks = [];
    characters = 0;
    truncated = false;
  }

  abbrev pub keep : Chunk → RoleTranscript F → RoleTranscript F
  keep c t =
      let text = take (character_limit - t.characters) c.text in
      record t {
        blocks = add_text c text t.blocks;
        characters = t.characters + length text;
        truncated = not (length text == length c.text);
      }

  -- Whether there is something new to show, and the transcript.
  unfoldable pub append_role_chunk : Chunk → RoleTranscript F → Bool × RoleTranscript F
  append_role_chunk c t =
      if t.truncated || is_nil c.text
      then (false, t)
      else if character_limit - t.characters == 0
          || (not (any (same_block c) t.blocks) && length t.blocks == block_limit)
      then (true, record t { truncated = true })
      else (true, keep c t)

  -- `{ ...a, ...b }` of the fields that are not looked at is a parameter.
  module _ (spread : F → F → F) where
    abbrev pub spread_tool : ToolCall F → ToolCall F → ToolCall F
    spread_tool old new = record {
      status = elim new.status [ none ↦ old.status | some s ↦ some s ];
      fields = spread old.fields new.fields;
    }

    unfoldable pub update_role_tool : ToolCall F → RoleTranscript F → RoleTranscript F
    update_role_tool tool t =
        if is_terminal_tool_status t.tool.status && is_progress tool.status
        then t
        else record t { tool = spread_tool t.tool tool }

-- What a turn does with a transcript.
pub data Event (F : Type 0) : Type 0 where
  chunk : Chunk → Event F
  update : ToolCall F → Event F

module _ {F : Type 0} (spread : F → F → F) where
  unfoldable pub step : Event F → RoleTranscript F → RoleTranscript F
  unfolding append_role_chunk update_role_tool
  step (chunk c) t = (append_role_chunk c t).1
  step (update tool) t = update_role_tool spread tool t

  unfoldable pub run : List (Event F) → RoleTranscript F → RoleTranscript F
  unfolding step
  run [] t = t
  run (e ∷ es) t = run es (step e t)
