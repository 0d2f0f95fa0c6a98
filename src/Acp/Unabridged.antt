-- ===== src/Acp/Unabridged.antt =====
-- adapters/acp/role-transcripts.ts: the text of a transcript that is not marked as truncated.
use mathlib.Core.Path.{subst}
use d3r.Base.{
  and-true_parts, ℕ, suc, zero, ◌-◌, Bool, true, false, not, ◌&&◌, ◌||◌, List, [], ◌∷◌, ◌++◌,
  str_eq, length, take, ◌==◌, if◌then◌else◌, ◌≡◌, refl, sym, ap, ◌∙◌, inl, inr, arith, Bool-cases,
  append-nil, append_assoc, eq_iff,
}
use d3r.Acp.Transcript.{
  character_limit, Chunk, ChunkKind, ToolCall, RoleTranscript, same_kind, same_block, add_text,
  is_nil, is_terminal_tool_status, is_progress, append_role_chunk, update_role_tool, Event, chunk,
  update, run,
}
use d3r.Acp.Shown.{is_full}

-- The text of the block of a chunk.
abbrev pub text_of : Chunk → List Chunk → List ℕ
text_of c [] = []
text_of c (row ∷ rows) = let rest = text_of c rows in if same_block c row then row.text else rest

-- All that was said in the block of a chunk.
abbrev pub said : {F : Type 0} → Chunk → List (Event F) → List ℕ
said c [] = []
said c (chunk d ∷ es) = let rest = said c es in if same_block c d then d.text ++ rest else rest
said c (update tool ∷ es) = said c es

take-all : (n : ℕ) (xs : List ℕ) → length (take n xs) ≡ length xs → take n xs ≡ xs
take-all zero [] h = refl
take-all zero (x ∷ xs) h = absurd (omega (arith, h))
take-all (suc n) [] h = refl
take-all (suc n) (x ∷ xs) h = ap (λ l. x ∷ l) (take-all n xs (omega (arith, h)))

-- A block belongs to the chunk's message and kind.
of_block :
    (c row : Chunk)
    → same_block c row ≡ true
    → (row.message_id ≡ c.message_id) × (row.kind ≡ c.kind)
of_block c row h =
    let (a, b) =
      and-true_parts (str_eq row.message_id c.message_id) (same_kind row.kind c.kind) h in
    ((eq_iff row.message_id c.message_id).0 a, of_kind row.kind c.kind b)
  where
    of_kind : (k l : ChunkKind) → same_kind k l ≡ true → k ≡ l
    of_kind ChunkKind.thought ChunkKind.thought h = refl
    of_kind ChunkKind.text_chunk ChunkKind.text_chunk h = refl
    of_kind ChunkKind.thought ChunkKind.text_chunk h = cc
    of_kind ChunkKind.text_chunk ChunkKind.thought h = cc

same_block-through : (c d row : Chunk) → same_block d row ≡ true → same_block c row ≡ same_block c d
same_block-through c d row h = let (a, b) = of_block d row h in rw (a, b) refl

same_block-apart :
    (c d row : Chunk) → same_block d row ≡ false → same_block c row ≡ true → same_block c d ≡ false
same_block-apart c d row e g = elim (Bool-cases (same_block c d)) [
  | inl f ↦
      let (a, b) = of_block c row g in
      let (x, y) = of_block c d f in
      absurd (
        clash (
          joined (str_eq row.message_id d.message_id) (same_kind row.kind d.kind)
            ((eq_iff row.message_id d.message_id).1 (a ∙ sym x))
            (like row.kind d.kind (b ∙ sym y))))
  | inr f ↦ f
]
  where
    clash : same_block d row ≡ true → ⊥
    clash h = cc

    joined : (a b : Bool) → a ≡ true → b ≡ true → (a && b) ≡ true
    joined a b h k = ground arith

    like : (k l : ChunkKind) → k ≡ l → same_kind k l ≡ true
    like ChunkKind.thought l h = subst (λ m. same_kind ChunkKind.thought m ≡ true) h refl
    like ChunkKind.text_chunk l h = subst (λ m. same_kind ChunkKind.text_chunk m ≡ true) h refl

text_of-add_text :
    (c d : Chunk) (text : List ℕ) (rows : List Chunk)
    → text_of c (add_text d text rows)
      ≡ (if same_block c d then text_of c rows ++ text else text_of c rows)
text_of-add_text c d text [] = refl
text_of-add_text c d text (row ∷ rows) = elim (Bool-cases (same_block d row)) [
  | inl e ↦
      rw (e, same_block-through c d row e)
        (elim (Bool-cases (same_block c d)) [ inl f ↦ rw f refl | inr f ↦ rw f refl ])
  | inr e ↦ rw e (elim (Bool-cases (same_block c row)) [
    | inl g ↦ rw (g, same_block-apart c d row e g) refl
    | inr g ↦ rw g (text_of-add_text c d text rows)
  ])
]

module _ {F : Type 0} where
  -- A chunk that leaves the transcript whole is in it.
  append-whole :
      (q c : Chunk) (t : RoleTranscript F)
      → (append_role_chunk c t).1.truncated ≡ false
      → (t.truncated ≡ false)
        × (text_of q (append_role_chunk c t).1.blocks
            ≡ (if same_block q c then text_of q t.blocks ++ c.text else text_of q t.blocks))
  unfolding append_role_chunk
  append-whole q c t h = elim (Bool-cases (t.truncated || is_nil c.text)) [
    | inl e ↦ rw e (
      rw (e, append_role_chunk) at h,
      nothing (is_nil-nil c.text (second e (rw (e, append_role_chunk) at h))),
    )
    | inr e ↦ elim (Bool-cases (is_full c t)) [
      | inl f ↦ absurd (clash (rw (e, f, append_role_chunk) at h))
      | inr f ↦ rw (e, f) (first e, kept (rw (e, f, append_role_chunk) at h))
    ]
  ]
    where
      clash : true ≡ false → ⊥
      clash h = cc

      second : (t.truncated || is_nil c.text) ≡ true → t.truncated ≡ false → is_nil c.text ≡ true
      second h k = ground arith

      first : (t.truncated || is_nil c.text) ≡ false → t.truncated ≡ false
      first h = ground arith

      is_nil-nil : (xs : List ℕ) → is_nil xs ≡ true → xs ≡ []
      is_nil-nil [] h = refl
      is_nil-nil (x ∷ xs) h = cc

      nothing :
          c.text ≡ []
          → text_of q t.blocks
            ≡ (if same_block q c then text_of q t.blocks ++ c.text else text_of q t.blocks)
      nothing h =
          rw (h, append-nil (text_of q t.blocks))
            (elim (Bool-cases (same_block q c)) [ inl e ↦ rw e refl | inr e ↦ rw e refl ])

      whole : (m n : ℕ) → not (m == n) ≡ false → m ≡ n
      whole m n h = ground arith

      kept :
          not (length (take (character_limit - t.characters) c.text) == length c.text) ≡ false
          → text_of q (add_text c (take (character_limit - t.characters) c.text) t.blocks)
            ≡ (if same_block q c then text_of q t.blocks ++ c.text else text_of q t.blocks)
      kept h =
          text_of-add_text q c (take (character_limit - t.characters) c.text) t.blocks
          ∙ ap (λ x. if same_block q c then text_of q t.blocks ++ x else text_of q t.blocks)
              (take-all (character_limit - t.characters) c.text (whole _ (length c.text) h))

  update-blocks :
      (spread : F → F → F) (tool : ToolCall F) (t : RoleTranscript F)
      → ((update_role_tool spread tool t).blocks ≡ t.blocks)
        × ((update_role_tool spread tool t).truncated ≡ t.truncated)
  unfolding update_role_tool
  update-blocks spread tool t =
      elim (Bool-cases (is_terminal_tool_status t.tool.status && is_progress tool.status)) [
        | inl e ↦ rw e (refl, refl)
        | inr e ↦ rw e (refl, refl)
      ]

-- A transcript that is not marked as truncated has lost nothing: the text of each message and kind is
-- what was there, followed by all that was said in it since, in order.
pub run-whole :
    {F : Type 0} (spread : F → F → F) (q : Chunk) (es : List (Event F)) (t : RoleTranscript F)
    → (run spread es t).truncated ≡ false
    → (t.truncated ≡ false) × (text_of q (run spread es t).blocks ≡ text_of q t.blocks ++ said q es)
unfolding run
run-whole spread q [] t h = (h, sym (append-nil (text_of q t.blocks)))
run-whole spread q (chunk c ∷ es) t h =
    let (now, later) = run-whole spread q es ((append_role_chunk c t).1) h in
    let (before, text) = append-whole q c t now in
    (before, later ∙ ap (λ x. x ++ said q es) text ∙ joined (same_block q c) refl)
  where
    joined :
        (b : Bool)
        → same_block q c ≡ b
        → (if same_block q c then text_of q t.blocks ++ c.text else text_of q t.blocks) ++ said q es
          ≡ text_of q t.blocks ++ (if same_block q c then c.text ++ said q es else said q es)
    joined true e = rw e (append_assoc (text_of q t.blocks) c.text (said q es))
    joined false e = rw e refl
run-whole spread q (update tool ∷ es) t h =
    let (now, later) = run-whole spread q es (update_role_tool spread tool t) h in
    let (blocks, mark) = update-blocks spread tool t in
    (sym mark ∙ now, later ∙ ap (λ x. text_of q x ++ said q es) blocks)
