-- ===== src/Tools/Definitions.antt =====
-- `TOOL_DEFINITIONS` of lib/ai/tools/index.ts: what the model is told of each tool.
use one_crew.Common.{some, List, [], ◌∷◌}
use one_crew.Common.Json.{text, number, array, object, nil, cons, end, field}
use one_crew.Bridge.{Tool}

abbrev pub tool_definitions : List Tool
tool_definitions =
    record {
      name = "create_task";
      description =
          some
            "Create a new task on the kanban board. The task will start in the Backlog column with a freshly issued PROJ-{N} task ID.";
      input_schema = object (
          field "type" (text "object") (
            field "properties"
              (object (
                field "title"
                  (object (field "type" (text "string") (field "maxLength" (number 200) end)))
                  (field "description" (object (field "type" (text "string") end))
                    (field "assigneeId" (object (field "type" (text "string") end)) end))))
              (field "required" (array (cons (text "title") nil)) end)));
    }
    ∷ record {
      name = "update_task_status";
      description =
          some
            "Move an existing task (identified by its PROJ-{N} task ID) to one of the four kanban columns.";
      input_schema = object (
          field "type" (text "object") (
            field "properties"
              (object (
                field "taskId" (object (field "type" (text "string") end)) (
                  field "status"
                    (object (
                      field "type" (text "string") (
                        field "enum"
                          (array (
                            cons (text "Backlog") (
                              cons (text "InProgress")
                                (cons (text "InReview") (cons (text "Done") nil)))))
                          end)))
                    end)))
              (field "required" (array (cons (text "taskId") (cons (text "status") nil))) end)));
    }
    ∷ record {
      name = "request_approval";
      description =
          some
            "Ask a human to approve a high-risk action before continuing. Use this for production changes, external communication, or any irreversible step. Include structured analysis with background, impactScope, riskLevel, and alternatives so reviewers can decide quickly. The cycle pauses while the approval is PENDING and resumes automatically once it is APPROVED.";
      input_schema = object (
          field "type" (text "object") (
            field "properties"
              (object (
                field "action" (object (field "type" (text "string") end)) (
                  field "payload" (object (field "type" (text "object") end)) (
                    field "reason" (object (field "type" (text "string") end)) (
                      field "analysis"
                        (object (
                          field "type" (text "object") (
                            field "properties"
                              (object (
                                field "background" (object (field "type" (text "string") end)) (
                                  field "impactScope" (object (field "type" (text "string") end)) (
                                    field "riskLevel"
                                      (object (
                                        field "type" (text "string") (
                                          field "enum"
                                            (array (
                                              cons (text "low")
                                                (cons (text "medium") (cons (text "high") nil))))
                                            end)))
                                      (field "alternatives"
                                        (object (field "type" (text "string") end)) end)))))
                              end)))
                        end)))))
              (field "required" (array (cons (text "action") (cons (text "reason") nil))) end)));
    }
    ∷ record {
      name = "send_channel_message";
      description =
          some
            "Post a message to a channel as this AI colleague. The message will be persisted and broadcast in real time exactly like a human-authored message.";
      input_schema = object (
          field "type" (text "object") (
            field "properties"
              (object (
                field "channelId" (object (field "type" (text "string") end)) (
                  field "content"
                    (object (field "type" (text "string") (field "maxLength" (number 8000) end)))
                    end)))
              (field "required" (array (cons (text "channelId") (cons (text "content") nil)))
                end)));
    }
    ∷ record {
      name = "mock_web_search";
      description =
          some
            "Read-only mock web search. Returns deterministic preset results without making any outbound network calls.";
      input_schema = object (
          field "type" (text "object") (
            field "properties"
              (object (field "query" (object (field "type" (text "string") end)) end))
              (field "required" (array (cons (text "query") nil)) end)));
    }
    ∷ record {
      name = "mock_read_project_docs";
      description =
          some
            "Read-only mock project documentation reader. Returns deterministic preset content without touching the filesystem.";
      input_schema = object (
          field "type" (text "object") (
            field "properties"
              (object (field "path" (object (field "type" (text "string") end)) end))
              (field "required" (array (cons (text "path") nil)) end)));
    }
    ∷ record {
      name = "web_search";
      description =
          some
            "Search the public web for recent information. Calls a configured search provider (Tavily by default) and returns ranked results with titles, URLs, and snippets. Use this when you need facts that may have changed since training time. Costs a small fee per call charged to the daily AI budget.";
      input_schema = object (
          field "type" (text "object") (
            field "properties"
              (object (
                field "query" (object (field "type" (text "string") end))
                  (field "maxResults" (object (field "type" (text "number") end)) end)))
              (field "required" (array (cons (text "query") nil)) end)));
    }
    ∷ record {
      name = "read_project_docs";
      description =
          some
            "Read a file (or list a directory) from a GitHub repository via the Contents API. Use this to inspect real source code, READMEs, or config in the operator's repos before making suggestions. Provide owner, repo, and path; ref is optional (defaults to the default branch). File bodies are capped at 64KB; directories return a listing you can drill into on the next call.";
      input_schema = object (
          field "type" (text "object") (
            field "properties"
              (object (
                field "owner" (object (field "type" (text "string") end)) (
                  field "repo" (object (field "type" (text "string") end)) (
                    field "path" (object (field "type" (text "string") end))
                      (field "ref" (object (field "type" (text "string") end)) end)))))
              (field "required"
                (array (cons (text "owner") (cons (text "repo") (cons (text "path") nil)))) end)));
    }
    ∷ record {
      name = "check_teammate_tasks";
      description =
          some
            "Read-only: look up what a teammate AI has been working on. Identify the teammate by aiUserId or aiName (provide at least one). Returns their task counts by column (Backlog / InProgress / InReview / Done) and the titles of tasks updated in the last 24 hours. No writes, no side effects — use it to synthesise a status read on a colleague.";
      input_schema = object (
          field "type" (text "object") (
            field "properties"
              (object (
                field "aiUserId" (object (field "type" (text "string") end))
                  (field "aiName" (object (field "type" (text "string") end)) end)))
              end));
    }
    ∷ record {
      name = "assign_task";
      description =
          some
            "Hand a task off to a teammate AI: set them as the assignee and wake them to pick it up. Identify the task by its PROJ-{N} taskId and the teammate by assigneeId or assigneeName (provide at least one). You may only assign to an AI that shares a channel with you. You may issue several assign_task calls to fan work out to multiple teammates, and you may hand a task back to the AI that delegated to you. When you are wrapping up, summarise to the human with send_channel_message or request_approval instead of handing off. Requires the operator to have enabled AI hand-off.";
      input_schema = object (
          field "type" (text "object") (
            field "properties"
              (object (
                field "taskId" (object (field "type" (text "string") end)) (
                  field "assigneeId" (object (field "type" (text "string") end))
                    (field "assigneeName" (object (field "type" (text "string") end)) end))))
              (field "required" (array (cons (text "taskId") nil)) end)));
    }
    ∷ []
