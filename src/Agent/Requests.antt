-- ===== src/Agent/Requests.antt =====
-- The order of authority in the requests of crates/gocode-agent/src/context.rs.
use gocode.Base.{
  if◌then◌else◌, map, ap, Bool-cases, inl, inr, append-nil, ◌≡◌, refl, Option, none, some, List, [],
  ◌∷◌, ◌++◌, append_assoc, String, str_eq, trim, format,
}
use gocode.Contract.{ToolDefinition}
use gocode.Agent.{ChatMessage}
use gocode.Agent.Context.{
  RequestContext, PersonalityName, personality_instruction, build_request, section, system_prompt,
  overview_title, instructions_title, skills_title, style_title,
}

module _ (V : Type 0) where
  -- What the project gives, by title: its overview, its instructions and its skills.
  abbrev pub given : RequestContext → List (String × Option String)
  given context =
      (overview_title, context.project_overview)
      ∷ (instructions_title, context.project_instructions)
      ∷ (skills_title, context.skills_summary)
      ∷ []

  -- The texts among them that are there and are not blank.
  abbrev pub present : List (String × Option String) → List (String × String)
  present [] = []
  present ((title, none) ∷ rest) = present rest
  present ((title, some text) ∷ rest) =
      if str_eq (trim text) "" then present rest else (title, text) ∷ present rest

  abbrev pub as_system : String × String → ChatMessage V
  as_system part = ChatMessage.system (format (part.0 ∷ part.1 ∷ []))

  abbrev pub sections : List (String × Option String) → List (ChatMessage V)
  sections [] = []
  sections ((title, text) ∷ rest) = section title text ++ sections rest

  sections-present :
      (parts : List (String × Option String)) → sections parts ≡ map as_system (present parts)
  sections-present [] = refl
  sections-present ((title, none) ∷ rest) = sections-present rest
  sections-present ((title, some text) ∷ rest) = elim (Bool-cases (str_eq (trim text) "")) [
    | inl blank ↦ rw blank (sections-present rest)
    | inr visible ↦ rw visible (ap (λ l. as_system (title, text) ∷ l) (sections-present rest))
  ]

  -- A request has the system prompt first; then one system message for each of the overview, the
  -- instructions and the skills that is there and is not blank, in this order and under its title; then
  -- the style of the personality, and the history unchanged. The personality changes neither the other
  -- messages nor the tools, the model and the reasoning effort.
  pub build_request-IsOrdered :
      (context : RequestContext) (history : List (ChatMessage V)) (tools : List (ToolDefinition V))
      (personality : PersonalityName)
      → let request = build_request (record context { personality = personality }) history tools in
        (request.messages
          ≡ ChatMessage.system system_prompt
            ∷ (map as_system (present (given context))
                ++ ChatMessage.system
                    (format (style_title ∷ personality_instruction personality ∷ []))
                  ∷ history))
        × (request.tools ≡ tools)
        × (request.model ≡ context.model)
        × (request.reasoning_effort ≡ context.reasoning_effort)
  unfolding build_request
  build_request-IsOrdered context history tools personality = (
    rw (← sections-present (given context)) (simp (append_assoc, append-nil) refl),
    refl,
    refl,
    refl,
  )
