-- ===== src/Acp/Shown.antt =====
-- adapters/acp/role-transcripts.ts: the bounds of a transcript, and the status of its tool call.
use mathlib.Core.Path.{subst}
use d3r.Base.{
  ℕ, suc, zero, ◌+◌, ◌-◌, ◌≤◌, Bool, true, false, not, ◌&&◌, ◌||◌, List, [], ◌∷◌, Option, none,
  some, any, length, length-append, take, ◌==◌, ◌≡◌, refl, sym, ◌⊎◌, inl, inr, arith, Bool-cases,
}
use d3r.Acp.Transcript.{
  character_limit, block_limit, Chunk, ToolStatus, ToolCall, RoleTranscript, same_block, add_text,
  is_nil, is_terminal_tool_status, is_progress, create_role_transcript, keep, append_role_chunk,
  update_role_tool, Event, chunk, update, run,
}

abbrev pub total : List Chunk → ℕ
total [] = 0
total (row ∷ rows) = length row.text + total rows

pub record IsBounded {F : Type 0} (t : RoleTranscript F) : Type 0 where
  pub counted : t.characters ≡ total t.blocks
  pub few : t.characters ≤ 65_536
  pub short : length t.blocks ≤ 128

length-take : (n : ℕ) (xs : List ℕ) → length (take n xs) ≤ n
length-take zero xs = omega arith
length-take (suc n) [] = omega arith
length-take (suc n) (x ∷ xs) = omega (arith, length-take n xs)

total-add_text :
    (c : Chunk) (text : List ℕ) (rows : List Chunk)
    → total (add_text c text rows) ≡ total rows + length text
total-add_text c text [] = omega arith
total-add_text c text (row ∷ rows) = elim (Bool-cases (same_block c row)) [
  | inl e ↦ rw e (omega (arith, length-append row.text text))
  | inr e ↦ rw e (omega (arith, total-add_text c text rows))
]

length-add_text :
    (c : Chunk) (text : List ℕ) (rows : List Chunk)
    → ((any (same_block c) rows ≡ true) × (length (add_text c text rows) ≡ length rows))
      ⊎ ((any (same_block c) rows ≡ false) × (length (add_text c text rows) ≡ suc (length rows)))
length-add_text c text [] = inr (refl, refl)
length-add_text c text (row ∷ rows) = elim (Bool-cases (same_block c row)) [
  | inl e ↦ rw e (inl (refl, refl))
  | inr e ↦ rw e (elim (length-add_text c text rows) [
    | inl (a, b) ↦ inl (a, omega (arith, b))
    | inr (a, b) ↦ inr (a, omega (arith, b))
  ])
]

module _ {F : Type 0} where
  -- When a chunk is left out, cut or kept.
  abbrev pub is_full : Chunk → RoleTranscript F → Bool
  is_full c t =
      character_limit - t.characters == 0
      || (not (any (same_block c) t.blocks) && length t.blocks == block_limit)

  keep-IsBounded :
      (c : Chunk) (t : RoleTranscript F) → IsBounded t → is_full c t ≡ false → IsBounded (keep c t)
  keep-IsBounded c t b room = record {
    counted = omega (
      arith,
      b.counted,
      total-add_text c (take (character_limit - t.characters) c.text) t.blocks,
    );
    few = omega (arith, b.few, length-take (character_limit - t.characters) c.text);
    short = elim (length-add_text c (take (character_limit - t.characters) c.text) t.blocks) [
      | inl (a, k) ↦ omega (arith, k, b.short)
      | inr (a, k) ↦ omega (arith, k, b.short, below (any (same_block c) t.blocks) a room)
    ];
  }
    where
      below :
          (found : Bool)
          → found ≡ false
          → (character_limit - t.characters == 0 || (not found && length t.blocks == block_limit))
            ≡ false
          → length t.blocks ≤ 127
      below found e h = ground (arith, b.short)

  append-IsBounded :
      (c : Chunk) (t : RoleTranscript F) → IsBounded t → IsBounded ((append_role_chunk c t).1)
  unfolding append_role_chunk
  append-IsBounded c t b = elim (Bool-cases (t.truncated || is_nil c.text)) [
    | inl e ↦ rw e b
    | inr e ↦ elim (Bool-cases (is_full c t)) [
      | inl f ↦ rw (e, f) (record { counted = b.counted; few = b.few; short = b.short })
      | inr f ↦ rw (e, f) (keep-IsBounded c t b f)
    ]
  ]

  -- A role that is finished is not opened again by a late update.
  update-terminal :
      (spread : F → F → F) (tool : ToolCall F) (t : RoleTranscript F)
      → is_terminal_tool_status t.tool.status ≡ true
      → is_terminal_tool_status ((update_role_tool spread tool t).tool.status) ≡ true
  unfolding update_role_tool
  update-terminal spread tool t h = elim (Bool-cases (is_progress tool.status)) [
    | inl e ↦ rw (h, e) h
    | inr e ↦ rw (h, e) (settled tool.status e)
  ]
    where
      settled :
          (s : Option ToolStatus)
          → is_progress s ≡ false
          → is_terminal_tool_status (elim s [ none ↦ t.tool.status | some x ↦ some x ]) ≡ true
      settled none e = h
      settled (some ToolStatus.completed) e = refl
      settled (some ToolStatus.failed) e = refl
      settled (some ToolStatus.pending) e = cc
      settled (some ToolStatus.in_progress) e = cc

  append-tool : (c : Chunk) (t : RoleTranscript F) → (append_role_chunk c t).1.tool ≡ t.tool
  unfolding append_role_chunk
  append-tool c t = elim (Bool-cases (t.truncated || is_nil c.text)) [
    | inl e ↦ rw e refl
    | inr e ↦ elim (Bool-cases (is_full c t)) [ inl f ↦ rw (e, f) refl | inr f ↦ rw (e, f) refl ]
  ]

  update-IsBounded :
      (spread : F → F → F) (tool : ToolCall F) (t : RoleTranscript F)
      → IsBounded t
      → IsBounded (update_role_tool spread tool t)
  unfolding update_role_tool
  update-IsBounded spread tool t b =
      elim (Bool-cases (is_terminal_tool_status t.tool.status && is_progress tool.status)) [
        | inl e ↦ rw e b
        | inr e ↦ rw e (record { counted = b.counted; few = b.few; short = b.short })
      ]

  run_from-IsBounded :
      (spread : F → F → F) (es : List (Event F)) (t : RoleTranscript F)
      → IsBounded t
      → IsBounded (run spread es t)
  unfolding run
  run_from-IsBounded spread [] t b = b
  run_from-IsBounded spread (chunk c ∷ es) t b =
      run_from-IsBounded spread es _ (append-IsBounded c t b)
  run_from-IsBounded spread (update tool ∷ es) t b =
      run_from-IsBounded spread es _ (update-IsBounded spread tool t b)

-- Whatever a role says and whatever happens to its tool call, the transcript has at most 65536
-- characters, which it counts exactly, in at most 128 blocks.
pub run-IsBounded :
    {F : Type 0} (spread : F → F → F) (tool : ToolCall F) (es : List (Event F))
    → IsBounded (run spread es (create_role_transcript tool))
unfolding create_role_transcript
run-IsBounded spread tool es =
    run_from-IsBounded spread es (create_role_transcript tool)
      (record { counted = refl; few = omega arith; short = omega arith })

-- Once a tool call is completed or failed, its status is one of these two whatever happens later.
pub run-terminal :
    {F : Type 0} (spread : F → F → F) (es : List (Event F)) (t : RoleTranscript F)
    → is_terminal_tool_status t.tool.status ≡ true
    → is_terminal_tool_status ((run spread es t).tool.status) ≡ true
unfolding run
run-terminal spread [] t h = h
run-terminal spread (chunk c ∷ es) t h =
    run-terminal spread es _
      (subst (λ x. is_terminal_tool_status x.status ≡ true) (sym (append-tool c t)) h)
run-terminal spread (update tool ∷ es) t h =
    run-terminal spread es _ (update-terminal spread tool t h)
